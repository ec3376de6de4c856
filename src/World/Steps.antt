-- ===== src/World/Steps.antt =====
-- How a block runs, step by step: backwards from what it returned, and forwards from its first step.
use discord_downloader_bot.Prelude.{
  ◌≡◌, refl, sym, ap, subst, ◌∙◌, ◌≢◌, true, false, ◌⊎◌, inl, inr, ◌∷◌,
}
use discord_downloader_bot.World.{
  Exn, Result, ok, raised, Call, Resp, History, Env, Exec, await, pure, lift, raise, catch, ◌>>=◌,
  is_ok,
}

-- Inversion: a block that returns has run each of its steps to its end.
pub >>=-eq-ok :
    {A B : Type 0} (m : Exec A) (f : A → Exec B) (env : Env) (h : History) {b : B} {h'' : History}
    → (m >>= f) env h ≡ (ok b, h'')
    → (a : A) × (h' : History) × (m env h ≡ (ok a, h')) × (f a env h' ≡ (ok b, h''))
unfolding ◌>>=◌
>>=-eq-ok {A} {B} m f env h {b} {h''} e = split (m env h) refl e
  where
    split :
        (p : Result A × History)
        → m env h ≡ p
        → ◌≡◌ {A = Result B × History}
            (elim p.0 [ ok a ↦ f a env p.1 | raised x ↦ (raised x, p.1) ])
            (ok b, h'')
        → (a : A) × (h' : History) × (m env h ≡ (ok a, h')) × (f a env h' ≡ (ok b, h''))
    split (ok a, h') q r = (a, h', q, r)
    split (raised x, h') q r = cc

-- A block that raises did so in its first step, or after it.
pub >>=-eq-raised :
    {A B : Type 0} (m : Exec A) (f : A → Exec B) (env : Env) (h h'' : History) (x : Exn)
    → (m >>= f) env h ≡ (raised x, h'')
    → (m env h ≡ (raised x, h''))
      ⊎ ((a : A) × (h' : History) × (m env h ≡ (ok a, h')) × (f a env h' ≡ (raised x, h'')))
unfolding ◌>>=◌
>>=-eq-raised {A} {B} m f env h h'' x e = split (m env h) refl e
  where
    split :
        (p : Result A × History)
        → m env h ≡ p
        → ◌≡◌ {A = Result B × History}
            (elim p.0 [ ok a ↦ f a env p.1 | raised y ↦ (raised y, p.1) ])
            (raised x, h'')
        → (m env h ≡ (raised x, h''))
          ⊎ ((a : A) × (h' : History) × (m env h ≡ (ok a, h')) × (f a env h' ≡ (raised x, h'')))
    split (ok a, h') q r = inr (a, h', q, r)
    split (raised y, h') q r =
        let same : y ≡ x = cc in
        inl (q ∙ ap (λ z. (raised z, h')) same ∙ ap (λ k. (raised x, k)) (ap (λ z. z.1) r))

pub await-eq-ok :
    (c : Call) (env : Env) (h h' : History) (a : Resp c)
    → await c env h ≡ (ok a, h')
    → (env h c ≡ ok a) × (h' ≡ record { call = c; returned = true } ∷ h)
unfolding await
await-eq-ok c env h h' a e =
    let answered : env h c ≡ ok a = ap (λ p. p.0) e in
    (
      answered,
      sym (ap (λ p. p.1) e) ∙ ap (λ r. record { call = c; returned = is_ok r } ∷ h) answered,
    )

pub await-eq-raised :
    (c : Call) (env : Env) (h h' : History) (x : Exn)
    → await c env h ≡ (raised x, h')
    → (env h c ≡ raised x) × (h' ≡ record { call = c; returned = false } ∷ h)
unfolding await
await-eq-raised c env h h' x e =
    let answered : env h c ≡ raised x = ap (λ p. p.0) e in
    (
      answered,
      sym (ap (λ p. p.1) e) ∙ ap (λ r. record { call = c; returned = is_ok r } ∷ h) answered,
    )

-- The same for a block that begins with a call: its event is the first of the block's.
pub await_bind-eq-ok :
    (c : Call) {B : Type 0} (f : Resp c → Exec B) (env : Env) (h : History) {b : B} {h'' : History}
    → (await c >>= f) env h ≡ (ok b, h'')
    → (a : Resp c) × (env h c ≡ ok a)
      × (f a env (record { call = c; returned = true } ∷ h) ≡ (ok b, h''))
await_bind-eq-ok c {B} f env h {b} {h''} e =
    let (a, h', first, rest) = >>=-eq-ok (await c) f env h e in
    let (answered, same) = await-eq-ok c env h h' a first in
    (a, answered, subst (λ (k : History). f a env k ≡ (ok b, h'')) same rest)

-- A `try` that returns did so in its body, or in the handler of what its body raised.
pub catch-eq-ok :
    {A : Type 0} (m : Exec A) (handler : Exn → Exec A) (env : Env) (h h' : History) (a : A)
    → catch m handler env h ≡ (ok a, h')
    → (m env h ≡ (ok a, h')) ⊎ ((x : Exn) × (k : History) × (handler x env k ≡ (ok a, h')))
unfolding catch
catch-eq-ok {A} m handler env h h' a e = split (m env h) refl e
  where
    split :
        (p : Result A × History)
        → m env h ≡ p
        → ◌≡◌ {A = Result A × History}
            (elim p.0 [ ok b ↦ (ok b, p.1) | raised x ↦ handler x env p.1 ])
            (ok a, h')
        → (m env h ≡ (ok a, h')) ⊎ ((x : Exn) × (k : History) × (handler x env k ≡ (ok a, h')))
    split (ok b, k) q r = inl (q ∙ r)
    split (raised x, k) q r = inr (x, k, r)

-- Forward: a block goes on from what its first step returns or raises.
pub >>=-ok :
    {A B : Type 0} (m : Exec A) (f : A → Exec B) (env : Env) (h h' : History) (a : A)
    → m env h ≡ (ok a, h')
    → (m >>= f) env h ≡ f a env h'
unfolding ◌>>=◌
>>=-ok {A} {B} m f env h h' a e =
    ap
      (λ (p : Result A × History). elim p.0 as (λ _. Result B × History) [
        | ok b ↦ f b env p.1
        | raised x ↦ (raised x, p.1)
      ])
      e

pub await_bind-ok :
    (c : Call) {B : Type 0} (f : Resp c → Exec B) (env : Env) (h : History) (a : Resp c)
    → env h c ≡ ok a
    → (await c >>= f) env h ≡ f a env (record { call = c; returned = true } ∷ h)
unfolding await
await_bind-ok c f env h a e =
    >>=-ok (await c) f env h _ a (ap (λ r. (r, record { call = c; returned = is_ok r } ∷ h)) e)

pub >>=-raised :
    {A B : Type 0} (m : Exec A) (f : A → Exec B) (env : Env) (h h' : History) (x : Exn)
    → m env h ≡ (raised x, h')
    → (m >>= f) env h ≡ (raised x, h')
unfolding ◌>>=◌
>>=-raised {A} {B} m f env h h' x e =
    ap
      (λ (p : Result A × History). elim p.0 as (λ _. Result B × History) [
        | ok b ↦ f b env p.1
        | raised y ↦ (raised y, p.1)
      ])
      e

pub await_bind-raised :
    (c : Call) {B : Type 0} (f : Resp c → Exec B) (env : Env) (h : History) (x : Exn)
    → env h c ≡ raised x
    → (await c >>= f) env h ≡ (raised x, record { call = c; returned = false } ∷ h)
unfolding await
await_bind-raised c f env h x e =
    >>=-raised (await c) f env h _ x (ap (λ r. (r, record { call = c; returned = is_ok r } ∷ h)) e)

pub catch-ok :
    {A : Type 0} (m : Exec A) (handler : Exn → Exec A) (env : Env) (h h' : History) (a : A)
    → m env h ≡ (ok a, h')
    → catch m handler env h ≡ (ok a, h')
unfolding catch
catch-ok {A} m handler env h h' a e =
    ap
      (λ (p : Result A × History). elim p.0 as (λ _. Result A × History) [
        | ok b ↦ (ok b, p.1)
        | raised x ↦ handler x env p.1
      ])
      e

pub catch-raised :
    {A : Type 0} (m : Exec A) (handler : Exn → Exec A) (env : Env) (h h' : History) (x : Exn)
    → m env h ≡ (raised x, h')
    → catch m handler env h ≡ handler x env h'
unfolding catch
catch-raised {A} m handler env h h' x e =
    ap
      (λ (p : Result A × History). elim p.0 as (λ _. Result A × History) [
        | ok b ↦ (ok b, p.1)
        | raised y ↦ handler y env p.1
      ])
      e

pub pure-eq-ok :
    {A : Type 0} (a b : A) (env : Env) (h h' : History) → pure a env h ≡ (ok b, h') → a ≡ b
unfolding pure
pure-eq-ok a b env h h' e = cc

pub ok-injective : {A : Type 0} {a b : A} → ok a ≡ ok b → a ≡ b
ok-injective e = cc

pub lift-eq-ok :
    {A : Type 0} (r : Result A) (env : Env) (h h' : History) (a : A)
    → lift r env h ≡ (ok a, h')
    → (r ≡ ok a) × (h' ≡ h)
unfolding lift
lift-eq-ok r env h h' a e = (ap (λ p. p.0) e, sym (ap (λ p. p.1) e))

pub raise-≢-ok :
    {A : Type 0} (x : Exn) (b : A) (env : Env) (h h' : History) → raise x env h ≢ (ok b, h')
unfolding raise
raise-≢-ok x b env h h' e = cc

pub pure_lem : {A : Type 0} (a : A) (env : Env) (h : History) → pure a env h ≡ (ok a, h)
unfolding pure
pure_lem a env h = refl
