-- ===== src/Sql/Parser/Cursor/Triples.antt =====
-- What a method of the parser ensures: rules for each step of a `do` block.
use deltabase_c.Prelude.{
  ℕ, zero, suc, ◌+◌, ◌≤◌, ◌<◌, ◌≡◌, refl, List, [], ◌∷◌, none, some, Bool, true, false, ltb, ltb→lt,
  length, get_elem?, arith, Bool-cases, inl, inr,
}
use deltabase_c.Sql.Dictionary.{SqlToken}
use deltabase_c.Sql.Parser.Cursor.{
  SqlParser, Parse, Outcome, returned, threw, null_pointer, still_running, Exception, after,
  advance, advance_or_throw, current, current_token, holds, match_or_throw,
}

-- `R` is what has to hold for a method that has not ended.
abbrev pub Holds : Type 0 → {A : Type 0} → (A → SqlParser → Type 0) → Outcome A → Type 0
Holds R Q (returned a p) = Q a p
Holds R Q (threw e) = Unit {0}
Holds R Q null_pointer = ⊥
Holds R Q still_running = R

pub record Ensures (R : Type 0) {A : Type 0} (Q : A → SqlParser → Type 0) (o : Outcome A)
    : Type 0 where
  pub out : Holds R Q o

-- The parser stands at a token of `tokens`, at `start` or behind it.
pub record From (tokens : List SqlToken) (start : ℕ) (p : SqlParser) : Type 0 where
  pub same : p.tokens ≡ tokens
  pub from : start ≤ p.current
  pub within : p.current < length tokens

pub From-le : {ts : List SqlToken} {c d : ℕ} {p : SqlParser} → d ≤ c → From ts c p → From ts d p
From-le {ts} {c} {d} {p} h s = record {
  same = s.same;
  from = omega (arith, s.from);
  within = s.within;
}

pub From-self : {ts : List SqlToken} {c : ℕ} {p : SqlParser} → From ts c p → From ts p.current p
From-self s = record { same = s.same; from = omega arith; within = s.within }

get_elem?-lt {ℓ} :
    {A : Type ℓ} (xs : List A) (i : ℕ) → i < length xs → (a : A) × (get_elem? xs i ≡ some a)
get_elem?-lt [] i h = absurd (omega arith)
get_elem?-lt (x ∷ xs) zero h = (x, refl)
get_elem?-lt (x ∷ xs) (suc i) h = get_elem?-lt xs i (omega arith)

pub token_at :
    {ts : List SqlToken} {c : ℕ} {p : SqlParser}
    → From ts c p
    → (t : SqlToken) × (current_token p ≡ some t)
token_at {ts} {c} {p} s = get_elem?-lt p.tokens p.current (rw s.same s.within)

moved :
    {ts : List SqlToken} {c : ℕ} {p : SqlParser}
    → From ts c p
    → ltb (p.current + 1) (length p.tokens) ≡ true
    → From ts (suc c) (record p { current = p.current + 1 })
moved {ts} {c} {p} s e = record {
  same = s.same;
  from = omega (arith, s.from);
  within = let l = ltb→lt (p.current + 1) (length p.tokens) e in rw s.same at l;
}

last :
    {ts : List SqlToken} {c : ℕ} {p : SqlParser}
    → From ts c p
    → ltb (p.current + 1) (length p.tokens) ≡ false
    → length ts ≤ suc p.current
last {ts} {c} {p} s e = let l : length p.tokens ≤ suc p.current = ground arith in rw s.same at l

module _ (R : Type 0) {A B : Type 0} {Q : B → SqlParser → Type 0} where
  pub then_do :
      (P : A → SqlParser → Type 0) (f : A → Parse B) (o : Outcome A)
      → Ensures R P o
      → ((a : A) (p : SqlParser) → P a p → Ensures R Q (f a p))
      → Ensures R Q (after o f)
  unfolding after
  then_do P f (returned a p) h k = k a p h.out
  then_do P f (threw e) h k = record { out = tt }
  then_do P f null_pointer h k = absurd h.out
  then_do P f still_running h k = record { out = h.out }

  pub on_returned :
      (f : A → Parse B) (a : A) (p : SqlParser)
      → Ensures R Q (f a p)
      → Ensures R Q (after (returned a p) f)
  unfolding after
  on_returned f a p h = h

  pub on_threw : (f : A → Parse B) (e : Exception) → Ensures R Q (after (threw e) f)
  unfolding after
  on_threw f e = record { out = tt }

pub holds_stays :
    (R : Type 0) (test : SqlToken → Bool) (p : SqlParser) → Ensures R (λ _ q. q ≡ p) (holds test p)
holds_stays R test p =
    elim (current_token p)
      as (λ o.
        Ensures R (λ _ q. q ≡ p)
          (elim o [ none ↦ returned false p | some t ↦ returned (test t) p ])) [
            | none ↦ record { out = refl }
            | some t ↦ record { out = refl }
          ]

module _ (R : Type 0) {B : Type 0} {Q : B → SqlParser → Type 0} where
  pub on_advance :
      (f : Bool → Parse B) {ts : List SqlToken} {c : ℕ} {p : SqlParser}
      → From ts c p
      → ((q : SqlParser) → q.current ≡ suc p.current → From ts (suc c) q → Ensures R Q (f true q))
      → (length ts ≤ suc p.current → Ensures R Q (f false p))
      → Ensures R Q (after (advance p) f)
  unfolding after advance
  on_advance f {ts} {c} {p} s k l = elim (Bool-cases (ltb (p.current + 1) (length p.tokens))) [
    | inl e ↦ rw (e, after) (k _ (omega arith) (moved s e))
    | inr e ↦ rw (e, after) (l (last s e))
  ]

  pub on_advance_or_throw :
      (f : Bool → Parse B) {ts : List SqlToken} {c : ℕ} {p : SqlParser}
      → From ts c p
      → ((q : SqlParser) → q.current ≡ suc p.current → From ts (suc c) q → Ensures R Q (f true q))
      → Ensures R Q (after (advance_or_throw p) f)
  unfolding after advance_or_throw advance
  on_advance_or_throw f {ts} {c} {p} s k =
      elim (Bool-cases (ltb (p.current + 1) (length p.tokens))) [
        | inl e ↦ rw (e, after) (k _ (omega arith) (moved s e))
        | inr e ↦ rw (e, after) (record { out = tt })
      ]

  pub on_current :
      (f : SqlToken → Parse B) {ts : List SqlToken} {c : ℕ} {p : SqlParser}
      → From ts c p
      → ((t : SqlToken) → current_token p ≡ some t → Ensures R Q (f t p))
      → Ensures R Q (after (current p) f)
  unfolding after current
  on_current f {p = p} s k = let (t, e) = token_at s in rw (e, after) (k t e)

  pub on_holds :
      (test : SqlToken → Bool) (f : Bool → Parse B) {ts : List SqlToken} {c : ℕ} {p : SqlParser}
      → From ts c p
      → ((t : SqlToken) → current_token p ≡ some t → test t ≡ true → Ensures R Q (f true p))
      → ((t : SqlToken) → current_token p ≡ some t → test t ≡ false → Ensures R Q (f false p))
      → Ensures R Q (after (holds test p) f)
  unfolding after
  on_holds test f {p = p} s k l =
      let (t, e) = token_at s in
      elim (Bool-cases (test t)) [
        | inl h ↦ rw (e, after) (rw h (k t e h))
        | inr h ↦ rw (e, after) (rw h (l t e h))
      ]

  pub on_match_or_throw :
      (test : SqlToken → Bool) (f : Bool → Parse B) {ts : List SqlToken} {c : ℕ} {p : SqlParser}
      → From ts c p
      → ((t : SqlToken) → current_token p ≡ some t → test t ≡ true → Ensures R Q (f true p))
      → Ensures R Q (after (match_or_throw (holds test) p) f)
  unfolding after match_or_throw
  on_match_or_throw test f {p = p} s k =
      let (t, e) = token_at s in
      elim (Bool-cases (test t)) [
        | inl h ↦ rw (e, after) (rw h (k t e h))
        | inr h ↦ rw (e, after) (rw h (record { out = tt }))
      ]

  -- Where it does not matter whether the position moves.
  pub on_step :
      (f : Bool → Parse B) {ts : List SqlToken} {c : ℕ} {p : SqlParser}
      → From ts c p
      → ((b : Bool) (q : SqlParser) → From ts c q → Ensures R Q (f b q))
      → Ensures R Q (after (advance p) f)
  on_step f {p = p} s k =
      on_advance f s (λ q _ u. k true q (From-le (omega arith) u)) (λ _. k false p s)
