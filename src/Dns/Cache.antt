-- ===== src/Dns/Cache.antt =====
-- dns/generation.ts: the two caches of a generation, in order of use. `toLowerCase` is a parameter.
pub mod Bounds
pub mod Calls
pub mod Kept
pub mod History
mod Tests
use sepigs.Base.{
  ℕ, zero, suc, ◌+◌, Bool, Option, none, some, [], ◌∷◌, ltb, leb, if◌then◌else◌, nat_eq, string_eq,
  length,
}
use sepigs.Base.Table.{Table, get, put, delete}
use sepigs.Base.Text.{Text, text_key}

pub data DnsCacheSource : Type 0 where
  system udp doh : DnsCacheSource

-- A positive entry, whose content is the address, or a negative one, whose content is the message.
pub record CacheEntry : Type 0 where
  pub host : Text
  pub content : Text
  pub expires_at : ℕ
  pub touched_at : ℕ
  pub source : DnsCacheSource
  pub sensitive : Bool
  pub synthetic : Bool

pub record DnsCache : Type 0 where
  pub positive_cache : Table Text CacheEntry
  pub negative_cache : Table Text CacheEntry
  pub max_entries : ℕ

abbrev pub new_cache : ℕ → DnsCache
new_cache max_entries = record {
  positive_cache = [];
  negative_cache = [];
  max_entries = max_entries;
}

-- What a lookup does with the entry that it finds under a key of a cache.
abbrev pub touch_entry :
    ℕ → Text → Option CacheEntry → Table Text CacheEntry → Option CacheEntry × Table Text CacheEntry
touch_entry now key none cache = (none, cache)
touch_entry now key (some e) cache =
    let touched = record e { touched_at = now } in
    if leb e.expires_at now
    then (none, delete key cache)
    else (some touched, put key touched (delete key cache))

abbrev pub first_entry : Table Text CacheEntry → Option CacheEntry
first_entry [] = none
first_entry ((_, e) ∷ _) = some e

-- One round of the loop of `trimCache`, on the oldest entry of each cache; `none` is its `return`.
abbrev pub trim_once : Option CacheEntry → Option CacheEntry → DnsCache → Option DnsCache
trim_once none none c = none
trim_once (some p) none c = some (record c { positive_cache = delete p.host c.positive_cache })
trim_once none (some n) c = some (record c { negative_cache = delete n.host c.negative_cache })
trim_once (some p) (some n) c = some (
    if leb p.touched_at n.touched_at
    then record c { positive_cache = delete p.host c.positive_cache }
    else record c { negative_cache = delete n.host c.negative_cache })

abbrev pub size : DnsCache → ℕ
size c = length c.positive_cache + length c.negative_cache

-- Each round deletes an entry, so as many rounds as there are entries are enough.
unfoldable pub trim_cache : ℕ → DnsCache → DnsCache
trim_cache zero c = c
trim_cache (suc rounds) c =
    let later : DnsCache =
      (elim (trim_once (first_entry c.positive_cache) (first_entry c.negative_cache) c) [
        | none ↦ c
        | some c' ↦ trim_cache rounds c'
      ]) in
    if ltb c.max_entries (size c) then later else c

module _ (lower : Text → Text) where
  unfoldable pub get_positive : ℕ → Text → DnsCache → Option CacheEntry × DnsCache
  get_positive now host c =
      let key = lower host in
      let (found, cache) = touch_entry now key (get key c.positive_cache) c.positive_cache in
      (found, record c { positive_cache = cache })

  unfoldable pub get_negative : ℕ → Text → DnsCache → Option CacheEntry × DnsCache
  get_negative now host c =
      let key = lower host in
      let (found, cache) = touch_entry now key (get key c.negative_cache) c.negative_cache in
      (found, record c { negative_cache = cache })

  abbrev pub with_positive : CacheEntry → DnsCache → DnsCache
  with_positive e c =
      let key = lower e.host in
      record c {
        negative_cache = delete key c.negative_cache;
        positive_cache = put key (record e { host = key }) (delete key c.positive_cache);
      }

  abbrev pub with_negative : CacheEntry → DnsCache → DnsCache
  with_negative e c =
      let key = lower e.host in
      record c {
        positive_cache = delete key c.positive_cache;
        negative_cache = put key (record e { host = key }) (delete key c.negative_cache);
      }

  unfoldable pub set_positive : CacheEntry → DnsCache → DnsCache
  set_positive e c = let c' = with_positive e c in trim_cache (size c') c'

  unfoldable pub set_negative : CacheEntry → DnsCache → DnsCache
  set_negative e c = let c' = with_negative e c in trim_cache (size c') c'
