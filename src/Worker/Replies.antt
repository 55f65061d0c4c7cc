-- ===== src/Worker/Replies.antt =====
-- What is sent, and when the agent is asked.
use package.text.Mathlib.Text.{◌==◌ as str_eq}
use minori.Common.{ℕ, ◌+◌, ◌<◌, ◌≡◌, List, [], ◌∷◌, Option, none, some}
use minori.Domain.{Time, text}
use minori.Events.{StoredEvent}
use minori.Worker.{Answers, Action, Prepared, marks_reply, sends}
use minori.Worker.Process.{recovered_reply}

-- Each send is of the reply that is stored at that time, and each stored reply is sent once at most.
abbrev pub SendsStored : Option Prepared → List Action → Type 0
SendsStored p [] = Unit {0}
SendsStored p (marks_reply key body kind ∷ cs) =
    SendsStored (some (record { text = body; kind = kind; key = key })) cs
SendsStored p (sends kind body key ∷ cs) =
    (p ≡ some (record { text = body; kind = kind; key = key })) × SendsStored none cs
SendsStored p (_ ∷ cs) = SendsStored p cs

-- The stored reply that a processing may send again.
abbrev pub resendable : ℕ → StoredEvent → Answers → Option Time → Option Prepared
resendable window e a none = none
resendable window e a (some at) = recovered_reply window a.started_at e at

-- The reply is the one that an earlier processing stored, with its text, kind and key, and less time
-- than the window has passed since the earlier processing began to send it.
pub record IsWithinWindow (window : ℕ) (e : StoredEvent) (now : Time) (p : Prepared) : Type 0 where
  pub attempted_at : Time
  pub begun : e.reply_attempted_at ≡ some attempted_at
  pub in_window : now < attempted_at + window
  pub same_key : e.reply_idempotency_key ≡ some p.key
  pub same_text : e.prepared_reply_text ≡ some p.text
  pub same_kind : e.prepared_reply_kind ≡ some p.kind

abbrev pub IsResendable : ℕ → StoredEvent → Time → Option Prepared → Type 0
IsResendable window e now none = Unit {0}
IsResendable window e now (some p) = IsWithinWindow window e now p
