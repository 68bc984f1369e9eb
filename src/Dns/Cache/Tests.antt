-- ===== src/Dns/Cache/Tests.antt =====
-- The caches with room for one entry.
use sepigs.Base.{◌≡◌, refl, false, none, some, List, [], ◌∷◌, nat_eq, string_eq}
use sepigs.Base.Table.{get, put, delete}
use sepigs.Base.Text.{Text, codes, text_key}
use sepigs.Dns.Cache.{
  system, CacheEntry, new_cache, get_positive, get_negative, trim_cache, set_positive,
}
use sepigs.Dns.Cache.Calls.{
  Call, getting_positive, setting_positive, setting_negative, IsBounded, run, step, run-new_cache,
}
use sepigs.Dns.Cache.History.{stored_answer, stored_failure, last_stored, Gives, lookup-Gives}

abbrev lower : Text → Text
lower t = t

abbrev answer : CacheEntry
answer = record {
  host = codes "a.test";
  content = codes "192.0.2.1";
  expires_at = 100;
  touched_at = 1;
  source = system;
  sensitive = false;
  synthetic = false;
}

abbrev failure : CacheEntry
failure = record answer { host = codes "b.test"; content = codes "ENOTFOUND"; touched_at = 2 }

abbrev calls : List Call
calls =
    setting_positive answer ∷ setting_negative failure ∷ getting_positive 3 (codes "a.test") ∷ []

run-new_cache_example : IsBounded 1 (run lower calls (new_cache 1))
run-new_cache_example = run-new_cache lower 1 calls

abbrev newer : CacheEntry
newer = record answer { content = codes "192.0.2.2"; touched_at = 4 }

abbrev answered : List Call
answered =
    setting_positive answer ∷ getting_positive 3 (codes "a.test") ∷ setting_positive newer ∷ []

-- The second answer is found, until it expires.
found_test :
    ((get_positive lower 5 (codes "a.test") (run lower answered (new_cache 1))).0
      ≡ some (record newer { touched_at = 5 }))
    × ((get_positive lower 100 (codes "a.test") (run lower answered (new_cache 1))).0 ≡ none)
unfolding run step get_positive set_positive trim_cache get put delete
found_test = (refl, refl)

lookup-Gives_example :
    Gives stored_answer 5
      (codes "a.test")
      (last_stored lower (codes "a.test") answered none)
      (get_positive lower 5 (codes "a.test") (run lower answered (new_cache 1))).0
    × Gives stored_failure 5
        (codes "a.test")
        (last_stored lower (codes "a.test") answered none)
        (get_negative lower 5 (codes "a.test") (run lower answered (new_cache 1))).0
lookup-Gives_example = lookup-Gives lower 1 5 answered (codes "a.test")
