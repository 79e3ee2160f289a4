-- ===== src/Db/Keeps.antt =====
-- Invariants of actions, one rule for each way to build one: what holds of the state before holds
-- after, whether the action returns or raises.
use doda.Base.{◌≡◌, refl, suc, Bool, true, false, Option, none, some, if◌then◌else◌}
use doda.Env.{Env}
use doda.Db.{
  Db, State, M, Error, Result, ok, err, after, ◌>>=◌, pure, raise, gets, asks, some_or_raise,
  modify, raise_if, utcnow, uuid4, token_urlsafe, settle, transaction,
}

pub record Keeps {A : Type 0} (e : Env) (P : State → Type 0) (m : M A) : Type 0 where
  pub at : (s : State) → P s → P (m e s).1

module _ {e : Env} {P : State → Type 0} where
  pub Keeps-modify :
      (f : Db → Db) → ((s : State) → P s → P (record s { db = f s.db })) → Keeps e P (modify f)
  Keeps-modify f h = record { at = h }

  pub Keeps-raise_if : (c : Bool) (x : Error) → Keeps e P (raise_if c x)
  Keeps-raise_if c x = record { at = λ s h. h }

  pub Keeps-utcnow : ((s : State) → P s → P (record s { reads = suc s.reads })) → Keeps e P utcnow
  Keeps-utcnow h = record { at = h }

  pub Keeps-uuid4 : ((s : State) → P s → P (record s { ids = suc s.ids })) → Keeps e P uuid4
  Keeps-uuid4 h = record { at = h }

  pub Keeps-token_urlsafe :
      ((s : State) → P s → P (record s { tokens = suc s.tokens })) → Keeps e P token_urlsafe
  Keeps-token_urlsafe h = record { at = h }

module _ {A : Type 0} {e : Env} {P : State → Type 0} where
  pub Keeps-pure : (a : A) → Keeps e P (pure a)
  Keeps-pure a = record { at = λ s h. h }

  pub Keeps-raise : (x : Error) → Keeps e P (raise {A = A} x)
  Keeps-raise x = record { at = λ s h. h }

  pub Keeps-gets : (f : Db → A) → Keeps e P (gets f)
  Keeps-gets f = record { at = λ s h. h }

  pub Keeps-asks : (f : Env → A) → Keeps e P (asks f)
  Keeps-asks f = record { at = λ s h. h }

  pub Keeps-some_or_raise : (o : Option A) (x : Error) → Keeps e P (some_or_raise o x)
  Keeps-some_or_raise none x = record { at = λ s h. h }
  Keeps-some_or_raise (some a) x = record { at = λ s h. h }

  pub Keeps-if : (b : Bool) (m n : M A) → Keeps e P m → Keeps e P n → Keeps e P (if b then m else n)
  Keeps-if true m n hm hn = hm
  Keeps-if false m n hm hn = hn

module _ {A B : Type 0} {e : Env} {P : State → Type 0} where
  after-keeps :
      (r : Result A) (s : State) (f : A → M B)
      → ((a : A) → Keeps e P (f a))
      → P s
      → P (after (r, s) f e).1
  after-keeps (ok a) s f hf h = (hf a).at s h
  after-keeps (err x) s f hf h = h

  pub Keeps-bind :
      (m : M A) (f : A → M B) → Keeps e P m → ((a : A) → Keeps e P (f a)) → Keeps e P (m >>= f)
  Keeps-bind m f hm hf = record {
    at = λ s h. let (r, s') = m e s in after-keeps r s' f hf (hm.at s h);
  }

-- The rule for one run, in which the rest may use what the first part returned.
after_at :
    {A B : Type 0} (P : State → Type 0) (out : Result A × State) (f : A → M B) (e : Env)
    → P out.1
    → ((a : A) → out.0 ≡ ok a → P (f a e out.1).1)
    → P (after out f e).1
after_at P (ok a, s) f e h hf = hf a refl
after_at P (err x, s) f e h hf = h

pub bind_at :
    {A B : Type 0} (P : State → Type 0) (m : M A) (f : A → M B) (e : Env) (s : State)
    → P (m e s).1
    → ((a : A) → (m e s).0 ≡ ok a → P (f a e (m e s).1).1)
    → P ((m >>= f) e s).1
bind_at P m f e s = after_at P (m e s) f e

settle-keeps :
    {A : Type 0} (P : State → Type 0) (s : State) (out : Result A × State)
    → ((s' : State) → P s' → P (record s' { db = s.db }))
    → P out.1
    → P (settle s.db out).1
settle-keeps P s (ok a, s') back h = h
settle-keeps P s (err x, s') back h = back s' h

settle_at :
    {A : Type 0} (P : State → Type 0) (s : State) (out : Result A × State)
    → ((s' : State) → P (record s' { db = s.db }))
    → ((a : A) → out.0 ≡ ok a → P out.1)
    → P (settle s.db out).1
settle_at P s (ok a, s') back h = h a refl
settle_at P s (err x, s') back h = back s'

-- The rule for one transaction: what its block leaves where it returns, and what a roll back leaves.
pub transaction_at :
    {A : Type 0} (P : State → Type 0) (m : M A) (e : Env) (s : State)
    → ((s' : State) → P (record s' { db = s.db }))
    → ((a : A) → (m e s).0 ≡ ok a → P (m e s).1)
    → P (transaction m e s).1
unfolding transaction
transaction_at P m e s = settle_at P s (m e s)

module _ {A : Type 0} (e : Env) (P : State → Type 0) where
  -- A transaction keeps what its block keeps, if a roll back keeps it.
  pub Keeps-transaction :
      (m : M A)
      → ((s s' : State) → P s → P s' → P (record s' { db = s.db }))
      → Keeps e P m
      → Keeps e P (transaction m)
  unfolding transaction
  Keeps-transaction m back k = record {
    at = λ s h. settle-keeps P s (m e s) (λ s' h'. back s s' h h') (k.at s h);
  }

pub ruleset keeps_rules = (
  Keeps-modify, Keeps-raise_if, Keeps-pure, Keeps-raise, Keeps-gets, Keeps-asks,
  Keeps-some_or_raise, Keeps-if, Keeps-bind,
)
