-- ===== src/Tests/Seedbank.antt =====
-- A bank with two seedlings; all calls go well.
use douglas.Base.{ℕ, ◌<◌, ◌≡◌, ◌⊎◌, refl, true, false, some, [], ◌∷◌, ok}
use douglas.Seedbank.{absent, holds, Seed, empty_seed, Bank, call, find, set, exists, of_seed}
use douglas.Seedbank.Ids.{
  get_next_id, list_seedlings, collect_ids, first_free, max_seedlings, used_ids, IsFirstFree,
}
use douglas.Seedbank.Operations.{
  make_folder, write_id, write_version, write_definition, create, update, default_seedling,
  claim_default, increment_health_log_fail_count,
}
use douglas.Seedbank.Rules.{update-newer, claim_default-ok}
use douglas.Seedbank.Creation.{create-ok}

abbrev seed : ℕ → Seed
seed id = record empty_seed { id = holds id; version = holds 1 }

abbrev logged : Seed
logged = record (seed 2) { health_log = holds (record { fail_count = 5; updated_at = 100 }) }

abbrev bank : Bank
bank = record { seeds = ("web", seed 0) ∷ ("mail", logged) ∷ []; default = absent; answers = [] }

next_id : (get_next_id bank).0 ≡ ok 1
unfolding get_next_id list_seedlings call collect_ids first_free
next_id = refl

created : (create "blog" 3 bank).0 ≡ ok tt
unfolding create exists find set get_next_id list_seedlings call collect_ids first_free make_folder
    write_id write_definition write_version
created = refl

create-ok_example :
    (exists "blog" bank ≡ false)
    × ((id : ℕ) × IsFirstFree max_seedlings 0 (used_ids bank.seeds) id
        × (find "blog" (create "blog" 3 bank).1.seeds
            ≡ some (record empty_seed { id = holds id; version = holds 3 })))
create-ok_example = create-ok "blog" 3 bank created

updated : (update "web" 2 bank).0 ≡ ok tt
unfolding update exists find set call write_definition write_version
updated = refl

update-newer_example :
    (current : ℕ) × (of_seed (λ s. s.version) (find "web" bank.seeds) ≡ holds current)
    × (current < 2)
update-newer_example = update-newer "web" 2 bank updated

claimed : (claim_default "web" bank).0 ≡ ok tt
unfolding claim_default default_seedling exists find
claimed = refl

claim_default-ok_example :
    (exists "web" bank ≡ true)
    × ((claim_default "web" bank).1.default ≡ holds "web")
    × ((bank.default ≡ absent) ⊎ (bank.default ≡ holds "web"))
claim_default-ok_example = claim_default-ok "web" bank claimed

sixth_failure : (increment_health_log_fail_count "mail" 200 bank).0 ≡ ok true
unfolding increment_health_log_fail_count exists find
sixth_failure = refl
