-- ===== src/Download/ZipStream/Tally.antt =====
-- The tally of the walk: what the progress reports count is what the archive holds.
use discord_downloader_bot.Prelude.{
  ℕ, ◌+◌, ◌≤◌, ◌<◌, ◌≡◌, refl, ap, subst, ◌∙◌, sym, Bool-cases, inl, inr, Bool, false, Option, none,
  some, List, [], ◌∷◌, ◌++◌, length, length-append, arith, get_or, map, ◌==◌, ◌&&◌, String,
  if◌then◌else◌,
}
use mathlib.Core.List.{append_assoc, append-nil}
use discord_downloader_bot.Int.{ℤ}
use discord_downloader_bot.Data.{Attachment, Message}
use discord_downloader_bot.World.{
  Result, ok, raised, Env, History, client_error, http_get, ◌>>=◌, pure,
}
use discord_downloader_bot.World.Steps.{>>=-eq-ok}
use discord_downloader_bot.Download.ZipStream.Progress.{compute_history_fraction, Bounds}
use discord_downloader_bot.Download.ZipStream.Walk.{
  Walk, Member, Reporter, tick, visit, walk_attachments, walk_messages, take_member, accepts,
  member,
}

-- The fraction of the walk lies between 0 and 1.
pub fraction_in_range :
    (current_id low high : ℤ)
    → let f = compute_history_fraction current_id low high in (f.num ≤ f.den) × (0 < f.den)
unfolding compute_history_fraction
fraction_in_range current_id low high = ground arith

Walk-injective : {w w' : Walk} → ◌≡◌ {A = Result Walk} (ok w) (ok w') → w ≡ w'
Walk-injective e = cc

-- How the CDN answers: a status, or an error of the connection.
abbrev pub answer : Option ℕ → Result ℕ
answer none = raised client_error
answer (some status) = ok status

abbrev pub is_ok_status : Option ℕ → Bool
is_ok_status none = false
is_ok_status (some status) = status == 200

module _ (matches : Option (Attachment → Message → Bool)) (statuses : String → Option ℕ) where
  -- An attachment that the filters accept and the CDN has.
  abbrev pub keeps : Message → Attachment → Bool
  keeps m a = accepts matches a m && is_ok_status (statuses a.url)

  abbrev pub kept_of : Message → List Attachment → List Attachment
  kept_of m [] = []
  kept_of m (a ∷ as') = if keeps m a then a ∷ kept_of m as' else kept_of m as'

  -- The members that the archive should hold, in the order of the walk.
  abbrev pub expected : List Message → List Member
  expected [] = []
  expected (m ∷ ms) = map (λ a. member a m) (kept_of m m.attachments) ++ expected ms

  abbrev pub bytes_of : List Attachment → ℕ
  bytes_of [] = 0
  bytes_of (a ∷ as') = get_or a.size 0 + bytes_of as'

  abbrev pub expected_bytes : List Message → ℕ
  expected_bytes [] = 0
  expected_bytes (m ∷ ms) = bytes_of (kept_of m m.attachments) + expected_bytes ms

  -- `w'` is `w` with these members and bytes more.
  pub record Grown (w w' : Walk) (members : List Member) (bytes : ℕ) : Type 0 where
    pub members_eq : w'.members ≡ w.members ++ members
    pub done_eq : w'.attachments_done ≡ w.attachments_done + length members
    pub bytes_eq : w'.bytes_streamed ≡ w.bytes_streamed + bytes

  Grown-refl : (w : Walk) → Grown w w [] 0
  Grown-refl w = record {
    members_eq = sym (append-nil w.members);
    done_eq = omega arith;
    bytes_eq = omega arith;
  }

  Grown-trans :
      (w w' w'' : Walk) (ms ns : List Member) (b c : ℕ)
      → Grown w w' ms b
      → Grown w' w'' ns c
      → Grown w w'' (ms ++ ns) (b + c)
  Grown-trans w w' w'' ms ns b c g k = record {
    members_eq =
        k.members_eq
        ∙ ap (λ (l : List Member). l ++ ns) g.members_eq
        ∙ append_assoc w.members ms ns;
    done_eq = omega (arith, g.done_eq, k.done_eq, length-append ms ns);
    bytes_eq = omega (arith, g.bytes_eq, k.bytes_eq);
  }

  tick-same :
      (r : Option Reporter) (b : Bounds) (m : Message) (env : Env) (h h' : History) (w w' : Walk)
      → tick r b m w env h ≡ (ok w', h')
      → (w'.members ≡ w.members)
        × (w'.attachments_done ≡ w.attachments_done)
        × (w'.bytes_streamed ≡ w.bytes_streamed)
  unfolding tick ◌>>=◌
  tick-same none b m env h h' w w' e = ground arith
  tick-same (some r) b m env h h' w w' e = ground arith

  module _ (env : Env)
      (cdn : (h : History) (url : String) → env h (http_get url) ≡ answer (statuses url)) where
    visit_lem :
        (m : Message) (a : Attachment) (h h' : History) (w w' : Walk)
        → visit matches m a w env h ≡ (ok w', h')
        → w' ≡ (if keeps m a then take_member a m w else w)
    unfolding visit ◌>>=◌
    visit_lem m a h h' w w' e = ground (arith, cdn h a.url)

    returned-Grown : (h h' : History) (w w' : Walk) → pure w env h ≡ (ok w', h') → Grown w w' [] 0
    unfolding pure
    returned-Grown h h' w w' e =
        subst (λ (x : Walk). Grown w x [] 0) (Walk-injective (ap (λ p. p.0) e)) (Grown-refl w)

    visit-Grown :
        (m : Message) (a : Attachment) (rest : List Attachment) (h h' : History) (w w' w'' : Walk)
        → visit matches m a w env h ≡ (ok w', h')
        → Grown w' w'' (map (λ b. member b m) (kept_of m rest)) (bytes_of (kept_of m rest))
        → Grown w w''
            (map (λ b. member b m) (kept_of m (a ∷ rest)))
            (bytes_of (kept_of m (a ∷ rest)))
    visit-Grown m a rest h h' w w' w'' e g = elim (Bool-cases (keeps m a)) [
      | inl kept ↦
          let same : w' ≡ take_member a m w =
            visit_lem m a h h' w w' e
            ∙ ap (λ (b : Bool). if b then take_member a m w else w) kept in
          rw kept (
            Grown-trans w (take_member a m w) w'' (member a m ∷ []) _ (get_or a.size 0) _
              (record { members_eq = refl; done_eq = omega arith; bytes_eq = refl })
              (subst
                (λ (x : Walk).
                  Grown x w'' (map (λ b. member b m) (kept_of m rest)) (bytes_of (kept_of m rest)))
                same g))
      | inr dropped ↦
          let same : w' ≡ w =
            visit_lem m a h h' w w' e
            ∙ ap (λ (b : Bool). if b then take_member a m w else w) dropped in
          rw dropped (
            subst
              (λ (x : Walk).
                Grown x w'' (map (λ b. member b m) (kept_of m rest)) (bytes_of (kept_of m rest)))
              same g)
    ]

    walk_attachments-Grown :
        (m : Message) (as' : List Attachment) (h h' : History) (w w' : Walk)
        → walk_attachments matches m as' w env h ≡ (ok w', h')
        → Grown w w' (map (λ b. member b m) (kept_of m as')) (bytes_of (kept_of m as'))
    unfolding walk_attachments
    walk_attachments-Grown m [] h h' w w' e = returned-Grown h h' w w' e
    walk_attachments-Grown m (a ∷ as') h h' w w' e =
        let (w₁, h₁, e₁, e₂) = >>=-eq-ok _ _ env h e in
        visit-Grown m a as' h h₁ w w₁ w' e₁ (walk_attachments-Grown m as' h₁ h' w₁ w' e₂)

    -- For a walk that comes to its end, in the order of the walk: the archive gains the attachments that
    -- the filters accept and the CDN answers with status 200, and no other; `attachments_done` grows by
    -- their number and `bytes_streamed` by the sum of their sizes. So it is with and without progress
    -- reports, also where reports fail.
    pub walk_holds_matches :
        (r : Option Reporter) (b : Bounds) (ms : List Message) (h h' : History) (w w' : Walk)
        → walk_messages matches r b ms w env h ≡ (ok w', h')
        → Grown w w' (expected ms) (expected_bytes ms)
    unfolding walk_messages
    walk_holds_matches r b [] h h' w w' e = returned-Grown h h' w w' e
    walk_holds_matches r b (m ∷ ms) h h' w w' e =
        let (w₁, h₁, e₁, k₁) = >>=-eq-ok _ _ env h e in
        let (w₂, h₂, e₂, k₂) = >>=-eq-ok _ _ env h₁ k₁ in
        let (same_members, same_done, same_bytes) = tick-same r b m env h h₁ w w₁ e₁ in
        let g =
          Grown-trans w₁ w₂ w' _ _ _ _ (walk_attachments-Grown m m.attachments h₁ h₂ w₁ w₂ e₂)
            (walk_holds_matches r b ms h₂ h' w₂ w' k₂) in
        record {
          members_eq = g.members_eq ∙ ap (λ (l : List Member). l ++ expected (m ∷ ms)) same_members;
          done_eq = omega (arith, g.done_eq, same_done);
          bytes_eq = omega (arith, g.bytes_eq, same_bytes);
        }
