-- ===== src/Store/Session/Lookup.antt =====
-- What the last record of a log means for a lookup by zss_find, src/zc_source_store.h.
use zealos_aarch64_bringup.Base.{
  ◌≡◌, ◌≢◌, refl, inl, inr, Bool-cases, if◌then◌else◌, ℕ, Option, some, List, [], ◌∷◌, ◌++◌,
}
use zealos_aarch64_bringup.Store.Name.{str_eq}
use zealos_aarch64_bringup.Store.Name.Laws.{str_eq_self, str_eq_sound}
use zealos_aarch64_bringup.Store.Record.{Decoded}
use zealos_aarch64_bringup.Store.Find.{found, tombstoned, Best, matches, update}
use zealos_aarch64_bringup.Store.Log.{latest}

pub latest-append :
    (name : Option (List ℕ)) (ds : List Decoded) (d : Decoded) (best : Best)
    → latest name (ds ++ d ∷ []) best ≡ update name d (latest name ds best)
unfolding latest
latest-append name [] d best = refl
latest-append name (e ∷ ds) d best = latest-append name ds d (update name e best)

pub update_self :
    (name : List ℕ) (d : Decoded) (best : Best)
    → d.name ≡ name
    → update (some name) d best ≡ (if d.deleted then tombstoned else found, some d.entry)
unfolding update matches
update_self name d best e = rw (e, str_eq_self name) refl

pub update_ne :
    (name : List ℕ) (d : Decoded) (best : Best) → d.name ≢ name → update (some name) d best ≡ best
unfolding update matches
update_ne name d best ne = elim (Bool-cases (str_eq d.name name)) [
  | inl e ↦ absurd (ne (str_eq_sound d.name name e))
  | inr e ↦ rw e refl
]
