-- ===== src/Accounts/Admins.antt =====
-- Which accounts a change leaves alone (app/server/monitor/services/user_service.py).
use rpi_home_monitor.Base.{
  String, ◌≡◌, ◌≢◌, refl, sym, ◌∙◌, Bool, true, false, ◌&&◌, not, Option, none, some, List, [], ◌∷◌,
  keep, length, ltb, leb, lt→ltb, length-keep-le, str_eq, eq_iff, if◌then◌else◌, Text, Bool-cases,
  inl, inr, arith,
}
use mathlib.Core.Path.{subst}
use mathlib.Core.Bool.{true≢false}
use rpi_home_monitor.Sessions
use rpi_home_monitor.Sessions.{Service}
use rpi_home_monitor.Accounts.{
  User, not_permitted, Requester, find_user, get_user, save_user, other_users, delete_user_row,
  delete_user, is_admin, is_weak, change_found, change_password,
}

pub differ : (j k : String) → j ≢ k → str_eq j k ≡ false
differ j k n = elim (Bool-cases (str_eq j k)) [
  | inl same ↦ absurd (n ((eq_iff j k).0 same))
  | inr other ↦ other
]

-- A lookup does not see the rows of another identifier.
get_user-other_users :
    (j k : String) (users : List User) → j ≢ k → get_user j (other_users k users) ≡ get_user j users
unfolding find_user keep
get_user-other_users j k [] n = refl
get_user-other_users j k (u ∷ users) n = elim (Bool-cases (str_eq u.id k)) [
  | inl same ↦ rw same (
      rw (differ u.id j (λ e. n (sym e ∙ (eq_iff u.id k).0 same)))
        (get_user-other_users j k users n))
  | inr other ↦ rw other (ap_if (str_eq u.id j) u (get_user-other_users j k users n))
]
  where
    ap_if :
        (b : Bool) (v : User) {o p : Option User}
        → o ≡ p
        → (if b then some v else o) ≡ (if b then some v else p)
    ap_if true v e = refl
    ap_if false v e = e

get_user-gone : (k : String) (users : List User) → get_user k (other_users k users) ≡ none
unfolding find_user keep
get_user-gone k [] = refl
get_user-gone k (u ∷ users) = elim (Bool-cases (str_eq u.id k)) [
  | inl same ↦ rw same (get_user-gone k users)
  | inr other ↦ rw other (rw other (get_user-gone k users))
]

pub get_user-save_user :
    (j : String) (user : User) (users : List User)
    → get_user j (save_user user users) ≡ (if str_eq user.id j then some user else get_user j users)
unfolding find_user save_user
get_user-save_user j user [] = refl
get_user-save_user j user (u ∷ users) =
    ground
      (arith, eq_iff u.id user.id, eq_iff u.id j, eq_iff user.id j, get_user-save_user j user users)

abbrev pub Hit : (User → Bool) → Option User → Type 0
Hit p none = Unit
Hit p (some u) = p u ≡ true

pub find_user-Hit : (p : User → Bool) (users : List User) → Hit p (find_user p users)
unfolding find_user
find_user-Hit p [] = tt
find_user-Hit p (u ∷ users) = elim (Bool-cases (p u)) [
  | inl hit ↦ rw hit hit
  | inr miss ↦ rw miss (find_user-Hit p users)
]

pub get_user-id : (k : String) (users : List User) (u : User) → get_user k users ≡ some u → u.id ≡ k
get_user-id k users u e =
    (eq_iff u.id k).0
      (subst (Hit (λ v. str_eq v.id k)) e (find_user-Hit (λ v. str_eq v.id k) users))

-- Where no row goes, none has the identifier.
none_deleted :
    (k : String) (users : List User)
    → ltb (length (other_users k users)) (length users) ≡ false
    → get_user k users ≡ none
unfolding find_user keep
none_deleted k [] h = refl
none_deleted k (u ∷ users) h = elim (Bool-cases (str_eq u.id k)) [
  | inl same ↦
      let le = length-keep-le (λ v. not (str_eq v.id k)) users in
      absurd (true≢false (sym (lt→ltb _ _ (rw same (omega (arith, le)))) ∙ h))
  | inr other ↦ rw other (none_deleted k users (ground arith))
]

-- Deleting an account takes that account and no other: after `delete_user` of another account than
-- the requester's own no row has its identifier, and every other identifier, the requester's
-- included, finds the same row as before.
pub delete_user-get_user :
    (cfg : Sessions.Config) (k j by : String) (users : List User) (sessions : Option Service)
    → k ≢ by
    → j ≢ k
    → (get_user k (delete_user cfg k by users sessions).1.0 ≡ none)
      × (get_user j (delete_user cfg k by users sessions).1.0 ≡ get_user j users)
unfolding delete_user delete_user_row
delete_user-get_user cfg k j by users sessions other n =
    rw (differ k by other) (elim (Bool-cases (ltb (length (other_users k users)) (length users))) [
      | inl fewer ↦ rw fewer (get_user-gone k users, get_user-other_users j k users n)
      | inr same ↦ rw same (none_deleted k users same, refl)
    ])

module _ (blocklist : List Text) (hash_password : String → String) where
  changed_others :
      (j k password : String) (reset : Bool) (users : List User) (o : Option User)
      → get_user k users ≡ o
      → j ≢ k
      → get_user j (change_found blocklist hash_password password reset users o).1
        ≡ get_user j users
  changed_others j k password reset users none e n = refl
  changed_others j k password reset users (some user) e n =
      elim (Bool-cases ((reset && is_admin user) && leb (length (keep is_admin users)) 1)) [
        | inl only ↦ rw only refl
        | inr more ↦ rw more (
            get_user-save_user j _ users
            ∙ rw (differ user.id j (λ d. n (sym d ∙ get_user-id k users user e))) refl)
      ]

  change_password_others :
      (k j password : String) (by : Requester) (force : Bool) (users : List User)
      → j ≢ k
      → get_user j (change_password blocklist hash_password k password by force users).1
        ≡ get_user j users
  unfolding change_password
  change_password_others k j password by force users n =
      elim (Bool-cases (not (str_eq by.role "admin") && not (str_eq by.id k))) [
        | inl outsider ↦ rw outsider refl
        | inr insider ↦ rw insider (elim (Bool-cases (is_weak blocklist password)) [
          | inl weak ↦ rw weak refl
          | inr strong ↦ rw strong (
              changed_others j k password
                ((str_eq by.role "admin" && not (str_eq by.id k)) && force) users _ refl n)
        ])
      ]

  change_password_refused :
      (k password : String) (by : Requester) (force : Bool) (users : List User)
      → by.role ≢ "admin"
      → by.id ≢ k
      → change_password blocklist hash_password k password by force users
        ≡ (some not_permitted, users)
  unfolding change_password
  change_password_refused k password by force users role other =
      rw (differ by.role "admin" role) (rw (differ by.id k other) refl)

  -- Who is no admin changes no account but his own: whatever account `change_password` is asked for by
  -- a requester of another role, every identifier but the requester's finds the same row as before.
  pub change_password-get_user :
      (k j password : String) (by : Requester) (force : Bool) (users : List User)
      → by.role ≢ "admin"
      → j ≢ by.id
      → get_user j (change_password blocklist hash_password k password by force users).1
        ≡ get_user j users
  change_password-get_user k j password by force users role n = elim (Bool-cases (str_eq by.id k)) [
    | inl own ↦
        change_password_others k j password by force users
          (λ e. n (e ∙ sym ((eq_iff by.id k).0 own)))
    | inr other ↦
        rw
          (change_password_refused k password by force users role
            (λ e. true≢false (sym ((eq_iff by.id k).1 e) ∙ other)))
          refl
  ]
