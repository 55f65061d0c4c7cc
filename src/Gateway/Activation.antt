-- ===== src/Gateway/Activation.antt =====
-- When a received message is for the bot.
use minori.Common.{
  ◌≡◌, refl, [], if◌then◌else◌, sym, inl, inr, Option, none, some, Bool, true, false, ◌&&◌, not,
  is_some, or_default, ◌>>=◌, guard, arith, Option-cases,
}
use minori.Domain.{Ident, NormalizedMessage}
use minori.Gateway.{
  MessageEvent, Bot, Host, is_p2p, user_sender, is_activated, is_valid_user_message_event,
  normalize_message_event,
}
use minori.Gateway.Handle.{looked_up, second_look, resolved, resolve}

-- Whether the bot's message was replied to, as far as that is asked: of a valid message of a user in
-- a group that has a parent. A lookup that failed says no.
abbrev pub is_reply_to_bot : Host → MessageEvent → Option Bool → Bool
unfolding is_valid_user_message_event
is_reply_to_bot h d lookup =
    is_valid_user_message_event h d
    && (not (is_p2p d.chat_type) && (is_some d.parent_id && or_default lookup false))

gated :
    {A : Type 0} {B : Type 0} (o : Option A) (a b : Bool) (rest : A → Option B) (m : B)
    → (a ≡ true → b ≡ true)
    → (o >>= λ s. guard a >>= λ _. rest s) ≡ some m
    → (o >>= λ s. guard b >>= λ _. rest s) ≡ some m
gated none a b rest m h k = k
gated (some s) true true rest m h k = k
gated (some s) true false rest m h k = absurd (ground (arith, h refl))
gated (some s) false b rest m h k = absurd (ground arith)

activated_more :
    (bot : Bot) (d : MessageEvent) (b : Bool)
    → is_activated bot d false ≡ true
    → is_activated bot d b ≡ true
activated_more bot d b h = ground arith

normalize_known :
    (h : Host) (bot : Bot) (d : MessageEvent) (m : NormalizedMessage) (b : Bool)
    → normalize_message_event h bot d false ≡ some m
    → normalize_message_event h bot d b ≡ some m
unfolding normalize_message_event
normalize_known h bot d m b k =
    gated (user_sender d) (is_activated bot d false) (is_activated bot d b) _ m
      (activated_more bot d b) k

-- The first normalization gave nothing: what the second look comes to.
asked :
    (h : Host) (bot : Bot) (d : MessageEvent) (lookup : Option Bool) (valid is_private : Bool)
    (parent : Option Ident)
    → normalize_message_event h bot d false ≡ none
    → (if valid
        then if is_private then ([], none) else second_look h bot d lookup parent
        else ([], none)).1
      ≡ normalize_message_event h bot d
          (valid && (not is_private && (is_some parent && or_default lookup false)))
unfolding second_look looked_up
asked h bot d lookup false is_private parent e = sym e
asked h bot d lookup true true parent e = sym e
asked h bot d lookup true false none e = sym e
asked h bot d none true false (some p) e = sym e
asked h bot d (some b) true false (some p) e = refl

-- The gateway normalizes a message without asking whether it replies to the bot, and once more with
-- the answer of a lookup where it has to ask. The outcome is that of one normalization that is told
-- whether the message replies to the bot: it does if it is a valid message of a user, in a group,
-- with a parent message, of which the lookup has answered that the bot wrote it.
pub activation_is_one_rule :
    (h : Host) (bot : Bot) (d : MessageEvent) (lookup : Option Bool)
    → (resolve h bot d lookup).1 ≡ normalize_message_event h bot d (is_reply_to_bot h d lookup)
unfolding resolve resolved
activation_is_one_rule h bot d lookup =
    elim (Option-cases (normalize_message_event h bot d false)) [
      | inl e ↦ rw e (
          asked h bot d lookup (is_valid_user_message_event h d) (is_p2p d.chat_type) d.parent_id e)
      | inr (m, e) ↦ rw e (sym (normalize_known h bot d m (is_reply_to_bot h d lookup) e))
    ]
