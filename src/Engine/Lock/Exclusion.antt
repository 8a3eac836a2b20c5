-- ===== src/Engine/Lock/Exclusion.antt =====
-- A session has at most one live guard, and is locked exactly while it has one.
use advanced_roleplaying_fra.Base.{
  Bool, true, false, not, List, [], ◌∷◌, ◌++◌, ◌≡◌, ◌≢◌, refl, sym, ap, subst, ||-eq-false,
  any-OneOf, inl, inr, any, keep, nat_eq, nat_eq_iff, Bool-cases, All, All-weaken, OneOf, Result,
  ok, err, if◌then◌else◌, arith,
}
use advanced_roleplaying_fra.Domain.Ids.{Uuid}
use advanced_roleplaying_fra.Engine.Lock.{
  TurnLockError, InMemorySessionTurnLock, TurnLockGuard, in_memory, acquire, drop_guard, Turns,
  Step, Reach,
}

abbrev got : {A E : Type 0} → A → Result A E → A
got a (ok b) = b
got a (err e) = a

-- Each live guard's session is in the table.
abbrev pub Covered : Turns → Type 0
Covered t = All (λ (g : TurnLockGuard). OneOf g.session_id t.lock.locked_sessions) t.guards

pub absent :
    (s : Uuid) (xs : List Uuid) → any (nat_eq s) xs ≡ false → (x : Uuid) → OneOf x xs → s ≢ x
absent s [] h x o e = absurd o
absent s (y ∷ xs) h x (inl here) e =
    let (first, _) = ||-eq-false (nat_eq s y) (any (nat_eq s) xs) h in
    ground (arith, nat_eq_iff s y)
absent s (y ∷ xs) h x (inr there) e =
    let (_, others) = ||-eq-false (nat_eq s y) (any (nat_eq s) xs) h in absent s xs others x there e

pub present : (s : Uuid) (xs : List Uuid) → any (nat_eq s) xs ≡ true → OneOf s xs
present s xs = any-OneOf (nat_eq s) s (λ x e. sym ((nat_eq_iff s x).0 e)) xs

OneOf-keep :
    (p : Uuid → Bool) (x : Uuid) (xs : List Uuid) → OneOf x xs → p x ≡ true → OneOf x (keep p xs)
OneOf-keep p x [] o h = absurd o
OneOf-keep p x (y ∷ xs) (inl here) h =
    let kept : p y ≡ true = subst (λ z. p z ≡ true) here h in rw kept (inl here)
OneOf-keep p x (y ∷ xs) (inr there) h = elim (Bool-cases (p y)) [
  | inl kept ↦ rw kept (inr (OneOf-keep p x xs there h))
  | inr dropped ↦ rw dropped (OneOf-keep p x xs there h)
]

All-both :
    {A : Type 0} {P Q R : A → Type 0} (xs : List A)
    → ((x : A) → P x → Q x → R x)
    → All P xs
    → All Q xs
    → All R xs
All-both [] f p q = tt
All-both (x ∷ xs) f p q = (f x p.0 q.0, All-both xs f p.1 q.1)

All-middle :
    {A : Type 0} (P : A → Type 0) (before after : List A) (y : A)
    → All P (before ++ y ∷ after)
    → P y × All P (before ++ after)
All-middle P [] after y h = h
All-middle P (x ∷ before) after y h =
    let (at_y, rest) = All-middle P before after y h.1 in (at_y, (h.0, rest))

-- Guards of different sessions each.
abbrev pub Exclusive : List TurnLockGuard → Type 0
Exclusive [] = Unit
Exclusive (guard ∷ guards) =
    All (λ (g : TurnLockGuard). guard.session_id ≢ g.session_id) guards × Exclusive guards

without :
    (before after : List TurnLockGuard) (guard : TurnLockGuard)
    → Exclusive (before ++ guard ∷ after)
    → Exclusive (before ++ after)
      × All (λ (g : TurnLockGuard). guard.session_id ≢ g.session_id) (before ++ after)
without [] after guard d = (d.1, d.0)
without (x ∷ before) after guard d =
    let (rest, apart) = without before after guard d.1 in
    let (from_guard, others) =
      All-middle (λ (g : TurnLockGuard). x.session_id ≢ g.session_id) before after guard d.0 in
    ((others, rest), ((λ e. from_guard (sym e)), apart))

-- What a successful `acquire` has seen and done.
pub acquire-eq-ok :
    (s : Uuid) (lock : InMemorySessionTurnLock) (guard : TurnLockGuard)
    (next : InMemorySessionTurnLock)
    → acquire s lock ≡ ok (guard, next)
    → (any (nat_eq s) lock.locked_sessions ≡ false)
      × (s ≡ guard.session_id)
      × (s ∷ lock.locked_sessions ≡ next.locked_sessions)
      × (lock.is_poisoned ≡ next.is_poisoned)
unfolding acquire
acquire-eq-ok s lock guard next h = split lock.is_poisoned (any (nat_eq s) lock.locked_sessions) h
  where
    split :
        (poisoned busy : Bool)
        → (if poisoned
            then err TurnLockError.poisoned
            else if busy
            then err TurnLockError.already_in_progress
            else ok (in_memory s lock))
          ≡ ok (guard, next)
        → (busy ≡ false)
          × (s ≡ guard.session_id)
          × (s ∷ lock.locked_sessions ≡ next.locked_sessions)
          × (lock.is_poisoned ≡ next.is_poisoned)
    split true busy e = cc
    split false true e = cc
    split false false e =
        let pair = ap (got (in_memory s lock)) e in
        (
          refl,
          ap (λ (p : TurnLockGuard × InMemorySessionTurnLock). p.0.session_id) pair,
          ap (λ (p : TurnLockGuard × InMemorySessionTurnLock). p.1.locked_sessions) pair,
          ap (λ (p : TurnLockGuard × InMemorySessionTurnLock). p.1.is_poisoned) pair,
        )

abbrev pub Excludes : Turns → Type 0
Excludes t = Exclusive t.guards × Covered t

Step-Excludes : {t u : Turns} → Step t u → Excludes t → Excludes u
unfolding drop_guard
Step-Excludes (Step.acquired t s guard lock e) h =
    let (new, same, table, _) = acquire-eq-ok s t.lock guard lock e in
    (
      (
        All-weaken t.guards
            (λ g o.
              subst (λ k. k ≢ g.session_id) same
                (absent s t.lock.locked_sessions new g.session_id o))
            h.1,
        h.0,
      ),
      (
        subst (OneOf guard.session_id) table (inl (sym same)),
        All-weaken t.guards (λ g o. subst (OneOf g.session_id) table (inr o)) h.1,
      ),
    )
Step-Excludes (Step.refused t s error e) h = h
Step-Excludes (Step.dropped lock before after guard) h =
    let (rest, apart) = without before after guard h.0 in
    let (_, covered) = All-middle _ before after guard h.1 in
    (
      rest,
      elim (Bool-cases lock.is_poisoned) [
        | inl poisoned ↦ rw poisoned covered
        | inr sound ↦ rw sound (
            All-both (before ++ after)
              (λ g differ o.
                OneOf-keep (λ s. not (nat_eq guard.session_id s)) g.session_id lock.locked_sessions
                  o (ground (arith, differ)))
              apart covered)
      ],
    )
Step-Excludes (Step.poisons t) h = h

-- In every reachable state, no two live guards are of the same session, and each live guard's
-- session is in the table.
pub Reach-Excludes : {t : Turns} → Reach t → Excludes t
Reach-Excludes Reach.start = (tt, tt)
Reach-Excludes (Reach.later r step) = Step-Excludes step (Reach-Excludes r)
