-- ===== src/Raise.antt =====
-- `do` blocks of computations that may raise and make no call.
use discord_downloader_bot.Prelude.{◌≡◌, refl, Bool, true, false, if◌then◌else◌}
use discord_downloader_bot.World.{Result, ok, raised}

infixl 5 ◌>>=◌
abbrev pub ◌>>=◌ {ℓ κ} : {A : Type ℓ} {B : Type κ} → Result A → (A → Result B) → Result B
ok a >>= f = f a
raised e >>= f = raised e

-- A block that returns has run its first step to its end, and a conditional that returns one of its branches.
pub bind-ok :
    {A B : Type 0} (m : Result A) (f : A → Result B) (b : B)
    → m >>= f ≡ ok b
    → (a : A) × (m ≡ ok a) × (f a ≡ ok b)
bind-ok (ok a) f b e = (a, refl, e)
bind-ok (raised x) f b e = cc

pub if-ok :
    {A P : Type 0} (b : Bool) {x y : Result A} {w : A}
    → (x ≡ ok w → P)
    → (y ≡ ok w → P)
    → (if b then x else y) ≡ ok w
    → P
if-ok true f g e = f e
if-ok false f g e = g e
