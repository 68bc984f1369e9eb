-- ===== src/Dns/Generations/Tests.antt =====
-- A reload while a query is under way.
use sepigs.Base.{◌≡◌, refl, false, List, [], ◌∷◌, arith, nat_eq, string_eq}
use sepigs.Base.Text.{text_key}
use sepigs.Dns.Generations.{GenerationHandle, has, new_store, acquire, switch_to, release}
use sepigs.Dns.Generations.Handles.{
  IsGenerations, Call, acquiring, switching, step, run, run-new_store, release_last,
}

abbrev calls : List Call
calls = acquiring ∷ switching 2 ∷ acquiring ∷ []

run-new_store_example : IsGenerations (run calls (new_store 1))
run-new_store_example = run-new_store 1 calls

abbrev old_handle : GenerationHandle
old_handle = record { generation = 1; released = false }

release_last_example : has 1 ((release 0 (run calls (new_store 1))).generations) ≡ false
unfolding run step acquire switch_to
release_last_example = release_last 1 calls 0 old_handle refl refl refl (omega arith) refl refl
