-- ===== src/Alerts/Notices.antt =====
-- What the subscribers learn: no notice is lost between the dispatcher and the mails.
use billcommons.Base.{
  ℕ, ◌≡◌, refl, ap, String, Bool, true, false, Option, none, some, List, [], ◌∷◌, ◌++◌, ◌&&◌, ◌||◌,
  any, map, ◌==◌, if◌then◌else◌, if_induction, str_eq, eq_iff, arith,
}
use billcommons.Base.Sorting.{sort_by}
use billcommons.Webhooks.Subscription.{Subscription, notify_disabled, was_created}
use billcommons.Alerts.{
  Row, Drain, disable_row, disable_rows, clear_row, is_notice, send_notice, send_notices,
  drain_webhook_notifications, pending_rows, id_le,
}

-- The notice that waits at a subscription.
abbrev pub notice_at : ℕ → List Row → Option String
notice_at i [] = none
notice_at i (r ∷ rows) =
    let rest = notice_at i rows in if r.id == i then r.subscription.notify_pending else rest

-- A notice says that the subscription was disabled.
abbrev pub tells_disabled : Option String → Bool
tells_disabled none = false
tells_disabled (some n) = str_eq n "disabled" || str_eq n "created_disabled"

-- A mail to the subscription says so.
abbrev pub is_told : (Option String → Bool) → ℕ → List (ℕ × String) → Bool
is_told says i mails = any (λ m. m.0 == i && says (some m.1)) mails

any-append :
    (p : ℕ × String → Bool) (ms ns : List (ℕ × String)) → any p (ms ++ ns) ≡ (any p ms || any p ns)
any-append p [] ns = refl
any-append p (m ∷ ms) ns = ground (arith, any-append p ms ns)

-- What a notice says is said by the notice that a disabled subscription gets.
abbrev IsKept : Bool → (Option String → Bool) → Type 0
IsKept supports says =
    (sub : Subscription)
    → says sub.notify_pending ≡ true
    → says (notify_disabled supports sub).notify_pending ≡ true

created-IsKept : (supports : Bool) → supports ≡ true → IsKept supports was_created
unfolding notify_disabled
created-IsKept supports on sub h = ground (arith, h, on)

disabled-IsKept : (supports : Bool) → IsKept supports tells_disabled
unfolding notify_disabled
disabled-IsKept supports sub h = ground arith

module _ (supports : Bool) (says : Option String → Bool) (silent : says none ≡ false)
    (kept : IsKept supports says) (i : ℕ) where
  notice_at-disable_row :
      (id : ℕ) (rows : List Row)
      → says (notice_at i rows) ≡ true
      → says (notice_at i (map (disable_row supports id) rows)) ≡ true
  notice_at-disable_row id [] h = h
  notice_at-disable_row id (r ∷ rows) h =
      ground (arith, h, kept r.subscription, notice_at-disable_row id rows)

  notice_at-disable_rows :
      (ids : List ℕ) (rows : List Row)
      → says (notice_at i rows) ≡ true
      → says (notice_at i (disable_rows supports ids rows)) ≡ true
  unfolding disable_rows
  notice_at-disable_rows [] rows h = h
  notice_at-disable_rows (id ∷ ids) rows h =
      notice_at-disable_rows ids (map (disable_row supports id) rows)
        (notice_at-disable_row id rows h)

  says-notice : (n : String) (p : Option String) → is_notice n p ≡ true → says p ≡ says (some n)
  says-notice n none h = ground (arith, h)
  says-notice n (some m) h = ap (λ k. says (some k)) ((eq_iff m n).0 h)

  -- A notice that is cleared was the one that was sent.
  notice_at-clear_row :
      (id : ℕ) (n : String) (rows : List Row)
      → says (notice_at i rows) ≡ true
      → (says (notice_at i (map (clear_row id n) rows)) || (id == i && says (some n))) ≡ true
  notice_at-clear_row id n [] h = ground (arith, h)
  notice_at-clear_row id n (r ∷ rows) h =
      ground (arith, h, says-notice n r.subscription.notify_pending, notice_at-clear_row id n rows)

  abbrev IsCovered : Drain → Type 0
  IsCovered d = (says (notice_at i d.rows) || is_told says i d.mails) ≡ true

  IsCovered-send_notice :
      (sends : ℕ → Bool) (meanwhile : ℕ → List ℕ) (m : ℕ × String) (d : Drain)
      → IsCovered d
      → IsCovered (send_notice supports sends meanwhile m d)
  IsCovered-send_notice sends meanwhile (id, n) d c =
      let rows = disable_rows supports (meanwhile id) d.rows in
      if_induction IsCovered (sends id)
        (λ _. ground (
          arith,
          c,
          notice_at-disable_rows (meanwhile id) d.rows,
          notice_at-clear_row id n rows,
          any-append (λ m. m.0 == i && says (some m.1)) d.mails ((id, n) ∷ []),
        ))
        λ _. ground (arith, c, notice_at-disable_rows (meanwhile id) d.rows)

  IsCovered-send_notices :
      (sends : ℕ → Bool) (meanwhile : ℕ → List ℕ) (ns : List (ℕ × String)) (d : Drain)
      → IsCovered d
      → IsCovered (send_notices supports sends meanwhile ns d)
  unfolding send_notices
  IsCovered-send_notices sends meanwhile [] d c = c
  IsCovered-send_notices sends meanwhile (m ∷ ns) d c =
      IsCovered-send_notices sends meanwhile ns (send_notice supports sends meanwhile m d)
        (IsCovered-send_notice sends meanwhile m d c)

  IsCovered-drain :
      (dry_run : Bool) (sends : ℕ → Bool) (meanwhile : ℕ → List ℕ) (rows : List Row)
      → says (notice_at i rows) ≡ true
      → IsCovered (drain_webhook_notifications supports dry_run sends meanwhile rows)
  unfolding drain_webhook_notifications
  IsCovered-drain dry_run sends meanwhile rows h =
      let start : Drain = record { rows = rows; mails = []; failed = 0 } in
      let c : IsCovered start = ground (arith, h) in
      if_induction IsCovered dry_run (λ _. c)
        λ _. IsCovered-send_notices sends meanwhile (sort_by id_le (pending_rows rows)) start c

pub data News : Type 0 where
  verified : News
  disabled : News

abbrev pub says_news : News → Option String → Bool
says_news verified n = was_created n
says_news disabled n = tells_disabled n

-- Whether the news is kept by a dispatcher for which the migration is applied or not.
abbrev pub is_supported : News → Bool → Bool
is_supported verified supports = supports
is_supported disabled supports = true

-- Whatever mails fail and whichever subscriptions the dispatcher disables meanwhile: if the notice of
-- a subscription told before the run that it was disabled, or told that it was verified and the
-- dispatcher may write "created_disabled" (supports_created_disabled), then it still has a notice that
-- tells so, or a mail that tells so was sent to it.
pub drain_webhook_notifications-tells :
    (news : News) (supports dry_run : Bool) (sends : ℕ → Bool) (meanwhile : ℕ → List ℕ)
    (rows : List Row) (i : ℕ)
    → is_supported news supports ≡ true
    → says_news news (notice_at i rows) ≡ true
    → (says_news news
          (notice_at i (drain_webhook_notifications supports dry_run sends meanwhile rows).rows)
        || is_told
            (says_news news)
            i
            (drain_webhook_notifications supports dry_run sends meanwhile rows).mails)
      ≡ true
drain_webhook_notifications-tells verified supports dry_run sends meanwhile rows i on =
    IsCovered-drain supports was_created refl (created-IsKept supports on) i dry_run sends meanwhile
      rows
drain_webhook_notifications-tells disabled supports dry_run sends meanwhile rows i on =
    IsCovered-drain supports tells_disabled refl (disabled-IsKept supports) i dry_run sends
      meanwhile rows
