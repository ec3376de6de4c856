-- ===== src/World/Since.antt =====
-- What a coroutine does once an event of some kind has happened: the rules of World/Trace.antt, from
-- such a history on.
use discord_downloader_bot.Prelude.{◌≡◌, refl, ap, ◌∙◌, Bool, true, any, any-append_right}
use discord_downloader_bot.World.{
  Result, ok, raised, Call, Event, Env, History, Exec, attempt, ◌>>=◌, after,
}
use discord_downloader_bot.World.Trace.{Extends, Extends-trans, Makes}

-- Once an event that `seen` holds of has happened, `m` makes only calls that `P` holds of.
pub record MakesSince (seen : Event → Bool) (P : Call → Bool) (env : Env) {A : Type 0} (m : Exec A)
    : Type 0 where
  pub from : (h : History) → any seen h ≡ true → Extends P h (after (m env h))

pub seen-Extends :
    (seen : Event → Bool) (P : Call → Bool) (h h' : History)
    → Extends P h h'
    → any seen h ≡ true
    → any seen h' ≡ true
seen-Extends seen P h h' (new, e, _) s = ap (any seen) e ∙ any-append_right seen new h s

module _ {seen : Event → Bool} {P : Call → Bool} {env : Env} where
  pub Makes-MakesSince : {A : Type 0} (m : Exec A) → Makes P env m → MakesSince seen P env m
  Makes-MakesSince m made = record { from = λ h _. made.at h }

  pub MakesSince-attempt :
      {A : Type 0} (m : Exec A) → MakesSince seen P env m → MakesSince seen P env (attempt m)
  unfolding attempt
  MakesSince-attempt m made = record { from = made.from }

  module _ {A B : Type 0} where
    since_at :
        (f : A → Exec B) (h : History) (p : Result A × History)
        → Extends P h p.1
        → any seen h ≡ true
        → ((a : A) → p.0 ≡ ok a → MakesSince seen P env (f a))
        → Extends P h (after {A = B} (elim p.0 [ ok a ↦ f a env p.1 | raised e ↦ (raised e, p.1) ]))
    since_at f h (ok a, h') x s k =
        Extends-trans P h h' _ x ((k a refl).from h' (seen-Extends seen P h h' x s))
    since_at f h (raised e, h') x s k = x

    -- The rest of the block may use what the first step returned, at a history after such an event.
    pub MakesSince-bind_answer :
        (m : Exec A) (f : A → Exec B)
        → MakesSince seen P env m
        → ((a : A) (h : History)
            → any seen h ≡ true
            → (m env h).0 ≡ ok a
            → MakesSince seen P env (f a))
        → MakesSince seen P env (m >>= f)
    unfolding ◌>>=◌
    MakesSince-bind_answer m f km kf = record {
      from = λ h s. since_at f h (m env h) (km.from h s) s (λ a e. kf a h s e);
    }

    pub MakesSince-bind :
        (m : Exec A) (f : A → Exec B)
        → MakesSince seen P env m
        → ((a : A) → MakesSince seen P env (f a))
        → MakesSince seen P env (m >>= f)
    MakesSince-bind m f km kf = MakesSince-bind_answer m f km (λ a _ _ _. kf a)
