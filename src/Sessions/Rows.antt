-- ===== src/Sessions/Rows.antt =====
-- What holds of every row and of every cache entry, through the operations of store.py and of a
-- dictionary.
use rpi_home_monitor.Base.{
  String, ◌≡◌, Option, none, some, List, [], ◌∷◌, Dict, get, put, remove, inl, inr, Bool-cases,
  str_eq, eq_iff, All,
}
use mathlib.Core.Path.{subst}
use rpi_home_monitor.Sessions.{Session, get_session, save_session}

module _ (P : Session → Type 0) where
  -- A row that is found satisfies what all rows satisfy, and has the id that was asked for.
  abbrev pub Found : String → Option Session → Type 0
  Found k none = Unit
  Found k (some r) = (r.id ≡ k) × P r

  pub get_session-Found :
      (k : String) (rows : List Session) → All P rows → Found k (get_session k rows)
  unfolding get_session
  get_session-Found k [] h = tt
  get_session-Found k (row ∷ rows) h = elim (Bool-cases (str_eq row.id k)) [
    | inl same ↦ rw same ((eq_iff row.id k).0 same, h.0)
    | inr other ↦ rw other (get_session-Found k rows h.1)
  ]

  pub save_session-All :
      (r : Session) (rows : List Session) → P r → All P rows → All P (save_session r rows)
  unfolding save_session
  save_session-All r [] p h = (p, tt)
  save_session-All r (row ∷ rows) p h = elim (Bool-cases (str_eq row.id r.id)) [
    | inl same ↦ rw same (p, h.1)
    | inr other ↦ rw other (h.0, save_session-All r rows p h.1)
  ]

module _ {V : Type 0} (Q : String → V → Type 0) where
  abbrev pub Entries : Dict V → Type 0
  Entries d = All (λ e. Q e.0 e.1) d

  abbrev pub FoundEntry : String → Option V → Type 0
  FoundEntry k none = Unit
  FoundEntry k (some v) = Q k v

  pub get-Entries : (k : String) (d : Dict V) → Entries d → FoundEntry k (get k d)
  unfolding get
  get-Entries k [] h = tt
  get-Entries k ((j, w) ∷ d) h = elim (Bool-cases (str_eq j k)) [
    | inl same ↦ rw same (subst (λ x. Q x w) ((eq_iff j k).0 same) h.0)
    | inr other ↦ rw other (get-Entries k d h.1)
  ]

  pub put-Entries : (k : String) (v : V) (d : Dict V) → Q k v → Entries d → Entries (put k v d)
  unfolding put
  put-Entries k v [] q h = (q, tt)
  put-Entries k v ((j, w) ∷ d) q h = elim (Bool-cases (str_eq j k)) [
    | inl same ↦ rw same (q, h.1)
    | inr other ↦ rw other (h.0, put-Entries k v d q h.1)
  ]

  pub remove-Entries : (k : String) (d : Dict V) → Entries d → Entries (remove k d)
  unfolding remove
  remove-Entries k [] h = tt
  remove-Entries k ((j, w) ∷ d) h = elim (Bool-cases (str_eq j k)) [
    | inl same ↦ rw same (remove-Entries k d h.1)
    | inr other ↦ rw other (h.0, remove-Entries k d h.1)
  ]
