-- ===== src/Server/Ws/Registry.antt =====
-- The registry of the hub of backend/server/src/ws-server.ts.
pub mod Steps
use corner_tasks.Prelude.{
  ℕ, suc, ◌+◌, ◌≤◌, ◌<◌, ◌≡◌, refl, sym, ap, subst, Bool, true, false, not, Option, none, some,
  List, [], ◌∷◌, ◌++◌, ◌==◌, leb, arith, branches, is_empty, length, filter, or_else, Bool-cases,
  inl, inr, if◌then◌else◌,
}
use corner_tasks.Prelude.Text.{Text, text_eq}
use corner_tasks.Server.Ws.Hub.{
  Registry, set_for, put_set, delete_set, add_id, remove_id, unregister, unregister_account,
  has_member, connections_for,
}

-- No account has an empty set, and none more than `max` connections.
abbrev pub IsCapped : ℕ → Registry → Type 0
IsCapped max [] = Unit
IsCapped max ((a, ids) ∷ reg) = (is_empty ids ≡ false) × (length ids ≤ max) × IsCapped max reg

set_for-capped :
    (max : ℕ) (a : Text) (reg : Registry) → IsCapped max reg → connections_for a reg ≤ max
unfolding set_for
set_for-capped max a [] h = omega arith
set_for-capped max a ((b, ids) ∷ reg) h =
    branches (λ (o : Option (List ℕ)). length (or_else o []) ≤ max) (text_eq b a) (some ids)
      (set_for a reg) (λ _. h.1) (λ _. set_for-capped max a reg h.2)

put_set-IsCapped :
    (max : ℕ) (a : Text) (ids : List ℕ) (reg : Registry)
    → is_empty ids ≡ false
    → length ids ≤ max
    → IsCapped max reg
    → IsCapped max (put_set a ids reg)
unfolding put_set
put_set-IsCapped max a ids [] e h k = (e, h, tt)
put_set-IsCapped max a ids ((b, old) ∷ reg) e h k =
    branches (IsCapped max) (text_eq b a) _ _ (λ _. (e, h, k.2))
      (λ _. (k.0, k.1, put_set-IsCapped max a ids reg e h k.2))

delete_set-IsCapped :
    (max : ℕ) (a : Text) (reg : Registry) → IsCapped max reg → IsCapped max (delete_set a reg)
unfolding delete_set
delete_set-IsCapped max a [] k = k
delete_set-IsCapped max a ((b, ids) ∷ reg) k =
    branches (IsCapped max) (text_eq b a) _ _ (λ _. delete_set-IsCapped max a reg k.2)
      (λ _. (k.0, k.1, delete_set-IsCapped max a reg k.2))

length-filter_le : (p : ℕ → Bool) (ids : List ℕ) → length (filter p ids) ≤ length ids
unfolding filter
length-filter_le p [] = omega arith
length-filter_le p (j ∷ ids) =
    branches (λ (xs : List ℕ). length xs ≤ suc (length ids)) (p j) (j ∷ filter p ids) (filter p ids)
      (λ _. omega (arith, length-filter_le p ids)) (λ _. omega (arith, length-filter_le p ids))

unregister_from-IsCapped :
    (max i : ℕ) (a : Text) (reg : Registry) (ids : List ℕ)
    → length ids ≤ max
    → IsCapped max reg
    → IsCapped max
        (if is_empty (remove_id i ids) then delete_set a reg else put_set a (remove_id i ids) reg)
unfolding remove_id
unregister_from-IsCapped max i a reg ids h k =
    branches (IsCapped max) (is_empty (filter (λ j. not (j == i)) ids)) _ _
      (λ _. delete_set-IsCapped max a reg k)
      (λ e.
        put_set-IsCapped max a (filter (λ j. not (j == i)) ids) reg e
          (omega (arith, h, length-filter_le (λ j. not (j == i)) ids)) k)

unregister-IsCapped :
    (max i : ℕ) (a : Text) (reg : Registry) → IsCapped max reg → IsCapped max (unregister i a reg)
unfolding unregister
unregister-IsCapped max i a reg k = go (set_for a reg) (set_for-capped max a reg k)
  where
    go :
        (o : Option (List ℕ))
        → length (or_else o []) ≤ max
        → IsCapped max (elim o [
          | none ↦ reg
          | some ids ↦
              if is_empty (remove_id i ids)
              then delete_set a reg
              else put_set a (remove_id i ids) reg
        ])
    go none h = k
    go (some ids) h = unregister_from-IsCapped max i a reg ids h k

pub unregister_account-IsCapped :
    (max i : ℕ) (account : Option Text) (reg : Registry)
    → IsCapped max reg
    → IsCapped max (unregister_account i account reg)
unfolding unregister_account
unregister_account-IsCapped max i none reg k = k
unregister_account-IsCapped max i (some []) reg k = k
unregister_account-IsCapped max i (some (c ∷ a)) reg k = unregister-IsCapped max i (c ∷ a) reg k

length-append_one : (ids : List ℕ) (i : ℕ) → length (ids ++ i ∷ []) ≡ suc (length ids)
length-append_one [] i = refl
length-append_one (j ∷ ids) i = ap suc (length-append_one ids i)

is_empty-append_one : (ids : List ℕ) (i : ℕ) → is_empty (ids ++ i ∷ []) ≡ false
is_empty-append_one [] i = refl
is_empty-append_one (j ∷ ids) i = refl

has_member-is_empty : (i : ℕ) (ids : List ℕ) → has_member i ids ≡ true → is_empty ids ≡ false
unfolding has_member
has_member-is_empty i [] h = cc h
has_member-is_empty i (j ∷ ids) h = refl

-- One more connection, where there is room for it.
pub joined-IsCapped :
    (max i : ℕ) (a : Text) (reg : Registry)
    → IsCapped max reg
    → leb max (connections_for a reg) ≡ false
    → IsCapped max (put_set a (add_id i (or_else (set_for a reg) [])) reg)
unfolding add_id
joined-IsCapped max i a reg k room =
    let ids = or_else (set_for a reg) [] in
    branches (λ js. IsCapped max (put_set a js reg)) (has_member i ids) ids (ids ++ i ∷ [])
      (λ e.
        put_set-IsCapped max a ids reg (has_member-is_empty i ids e) (set_for-capped max a reg k) k)
      (λ _.
        put_set-IsCapped max a (ids ++ i ∷ []) reg (is_empty-append_one ids i)
          (ground (arith, room, length-append_one ids i)) k)

pub capped-connections_for :
    (max : ℕ) (a : Text) (reg : Registry) → IsCapped max reg → connections_for a reg ≤ max
capped-connections_for = set_for-capped
