-- ===== src/World/Count.antt =====
-- How many calls of a kind have returned when a coroutine returns: one rule for each way to build it.
use discord_downloader_bot.Prelude.{
  ℕ, ◌+◌, ◌≡◌, refl, sym, ap, ◌∙◌, Bool, true, false, not, ◌&&◌, [], ◌∷◌, ◌++◌, arith,
  if◌then◌else◌,
}
use discord_downloader_bot.World.{
  Exn, Result, ok, raised, Call, Resp, History, Env, Exec, await, pure, raise, catch, ◌>>=◌,
}
use discord_downloader_bot.World.Trace.{Extends, Are, Makes}
use discord_downloader_bot.World.Steps.{>>=-eq-ok, await-eq-ok, await-eq-raised, pure-eq-ok}

abbrev pub one_if : Bool → ℕ
one_if b = if b then 1 else 0

pub count : (Call → Bool) → History → ℕ
count P [] = 0
count P (e ∷ h) = one_if (e.returned && P e.call) + count P h

-- Where `n` such calls of a block have returned before `m`, `total a` of them have when `m` returns `a`.
pub record Counted (P : Call → Bool) (env : Env) (n : ℕ) {A : Type 0} (m : Exec A) (total : A → ℕ)
    : Type 0 where
  pub at : (h h' : History) (a : A) → m env h ≡ (ok a, h') → count P h' + n ≡ total a + count P h

count-quiet :
    (P : Call → Bool) (new h : History) → Are (λ c. not (P c)) new → count P (new ++ h) ≡ count P h
unfolding count
count-quiet P [] h q = refl
count-quiet P (e ∷ new) h q = ground (arith, q.0, count-quiet P new h q.1)

pub count-Extends :
    (P : Call → Bool) (h h' : History) → Extends (λ c. not (P c)) h h' → count P h' ≡ count P h
count-Extends P h h' (new, ends, quiet) =
    omega (arith, ap (count P) ends, count-quiet P new h quiet)

pub await-spared :
    (P : Call → Bool) (env : Env) (c : Call) (h k : History) (x : Exn)
    → await c env h ≡ (raised x, k)
    → count P k ≡ count P h
unfolding count
await-spared P env c h k x e =
    let (_, ends) = await-eq-raised c env h k x e in omega (arith, ap (count P) ends)

module _ {P : Call → Bool} {env : Env} where
  module _ {A : Type 0} where
    -- A step that makes no such call.
    pub Makes-Counted :
        (n : ℕ) (m : Exec A) → Makes (λ c. not (P c)) env m → Counted P env n m (λ _. n)
    Makes-Counted n m made = record {
      at = λ h h' a e.
          let (new, ends, quiet) = made.at h in
          let here : h' ≡ new ++ h = sym (ap (λ p. p.1) e) ∙ ends in
          omega (arith, ap (count P) here, count-quiet P new h quiet);
    }

    pub Counted-pure :
        (n : ℕ) (a : A) (total : A → ℕ) → total a ≡ n → Counted P env n (pure a) total
    unfolding pure
    Counted-pure n a total e = record {
      at = λ h h' b r.
          let same : a ≡ b = pure-eq-ok a b env h h' r in
          let still : h ≡ h' = ap (λ p. p.1) r in
          omega (arith, e, ap total same, ap (count P) still);
    }

    pub Counted-raise : (n : ℕ) (x : Exn) (total : A → ℕ) → Counted P env n (raise x) total
    unfolding raise
    Counted-raise n x total = record { at = λ h h' b r. cc }

    pub Counted-if :
        (n : ℕ) (b : Bool) (m k : Exec A) (total : A → ℕ)
        → Counted P env n m total
        → Counted P env n k total
        → Counted P env n (if b then m else k) total
    Counted-if n true m k total cm ck = cm
    Counted-if n false m k total cm ck = ck

    -- A handler starts from where the body raised: no such call may have returned by then.
    pub Counted-catch_spared :
        (n : ℕ) (m : Exec A) (handler : Exn → Exec A) (total : A → ℕ)
        → Counted P env n m total
        → ((h k : History) (x : Exn) → m env h ≡ (raised x, k) → count P k ≡ count P h)
        → ((x : Exn) → Counted P env n (handler x) total)
        → Counted P env n (catch m handler) total
    unfolding catch
    Counted-catch_spared n m handler total cm spared ch = record {
      at = λ h h' a e. split h h' a (m env h) refl e;
    }
      where
        split :
            (h h' : History) (a : A) (p : Result A × History)
            → m env h ≡ p
            → ◌≡◌ {A = Result A × History}
                (elim p.0 [ ok b ↦ (ok b, p.1) | raised x ↦ handler x env p.1 ])
                (ok a, h')
            → count P h' + n ≡ total a + count P h
        split h h' a (ok b, k) q r = cm.at h h' a (q ∙ r)
        split h h' a (raised x, k) q r = omega (arith, (ch x).at k h' a r, spared h k x q)

    pub Counted-catch :
        (n : ℕ) (m : Exec A) (handler : Exn → Exec A) (total : A → ℕ)
        → Counted P env n m total
        → Makes (λ c. not (P c)) env m
        → ((x : Exn) → Counted P env n (handler x) total)
        → Counted P env n (catch m handler) total
    Counted-catch n m handler total cm quiet ch =
        Counted-catch_spared n m handler total cm
          (λ h k x q.
            let (new, ends, silent) = quiet.at h in
            let here : k ≡ new ++ h = sym (ap (λ p. p.1) q) ∙ ends in
            omega (arith, ap (count P) here, count-quiet P new h silent))
          ch

  pub Counted-await :
      (n : ℕ) (c : Call) (total : Resp c → ℕ)
      → ((a : Resp c) → total a ≡ one_if (P c) + n)
      → Counted P env n (await c) total
  unfolding count
  Counted-await n c total e = record {
    at = λ h h' a r.
        let (_, ends) = await-eq-ok c env h h' a r in omega (arith, ap (count P) ends, e a);
  }

  pub Counted-bind :
      {A B : Type 0} (n : ℕ) (m : Exec A) (f : A → Exec B) (before : A → ℕ) (total : B → ℕ)
      → Counted P env n m before
      → ((a : A) → Counted P env (before a) (f a) total)
      → Counted P env n (m >>= f) total
  Counted-bind n m f before total cm cf = record {
    at = λ h h' b e.
        let (a, k, first, rest) = >>=-eq-ok m f env h e in
        omega (arith, cm.at h k a first, (cf a).at k h' b rest);
  }
