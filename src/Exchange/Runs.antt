-- ===== src/Exchange/Runs.antt =====
-- lib/exchange.js: what holds of an exchange in whatever order it is used and hears from the server.
use node_amqp.Prelude.{
  ℕ, ◌+◌, ◌≡◌, refl, sym, ap, ◌∙◌, arith, ltb, inr, Bool, true, false, List, [], Option, none, some,
  if◌then◌else◌, subst, ◌||◌,
}
use node_amqp.Channel.Tasks.{handle_task_reply}
use node_amqp.Exchange.Confirms.{Confirms, on_error, low_word, publish_confirms}
use node_amqp.Exchange.State.{
  Phase, is_open, Incoming, channel_open_ok, exchange_declare_ok, confirm_select_ok, channel_close,
  channel_close_ok, basic_return, exchange_bind_ok, exchange_unbind_ok, basic_ack_of, other,
  Exchange, new_exchange, set_phase, flush, put_out, call_open, opens_at_once, on_open_ok, opens,
  on_declare_ok, emit_error, on_close, on_bind_ok, on_unbind_ok, set_sequence, add_handler, handle,
  number_of, on_method, publish, is_pre_baked,
}
use node_amqp.Exchange.Counts.{one_if, waits, calls_of}
use node_amqp.Exchange.Accounts.{
  IsAccounted, new_confirms-IsAccounted, basic_ack-IsAccounted, on_error-IsAccounted, on_error-none,
  reset-IsAccounted, publish_confirms-IsAccounted,
}

if-confirms :
    (b : Bool) (e f : Exchange)
    → e.confirms ≡ f.confirms
    → (if b then e else f).confirms ≡ f.confirms
if-confirms true e f h = h
if-confirms false e f h = refl

call_open-confirms : (e : Exchange) → (call_open e).confirms ≡ e.confirms
unfolding call_open put_out
call_open-confirms e = if-confirms e.open_callback _ e refl

opens-confirms : (e : Exchange) → (opens e).confirms ≡ e.confirms
unfolding opens put_out set_phase
opens-confirms e = call_open-confirms _

opens_at_once-confirms : (e : Exchange) → (opens_at_once e).confirms ≡ e.confirms
unfolding opens_at_once put_out set_phase flush
opens_at_once-confirms e =
    if-confirms e.confirms.confirm _ _ (sym (call_open-confirms _)) ∙ call_open-confirms _

-- The sequence starts again only on an exchange on which nothing waits.
abbrev pub StartsAfresh : Incoming → Exchange → Type 0
StartsAfresh confirm_select_ok e = e.confirms.un_acked ≡ []
StartsAfresh m e = Unit

-- What happens to an exchange: a call of `publish`, a method of the server that it knows, a state that the
-- connection sets, an error of the connection.
pub data Step (listeners : ℕ → List (Option ℕ)) : Exchange → Exchange → Type 0 where
  publishes : (blocked : Bool) (e : Exchange) → Step listeners e (publish blocked e)
  receives :
      (m : Incoming) (e f : Exchange)
      → StartsAfresh m e
      → on_method listeners m e ≡ some f
      → Step listeners e f
  set_to : (phase : Phase) (e : Exchange) → Step listeners e (set_phase phase e)
  fails : (e : Exchange) → Step listeners e (record e { confirms = on_error e.confirms })

pub data IsReachable (listeners : ℕ → List (Option ℕ)) : Exchange → Type 0 where
  starts :
      (name : List ℕ) (no_declare open_callback : Bool)
      → IsReachable listeners (new_exchange name true no_declare open_callback)
  steps : (e f : Exchange) → IsReachable listeners e → Step listeners e f → IsReachable listeners f

added-IsAccounted : (c : Confirms) → IsAccounted c → IsAccounted (record c { handler_added = true })
added-IsAccounted c h = record {
  confirms = h.confirms;
  once = h.once;
  below = h.below;
  handled = inr refl;
}

restarted-IsAccounted :
    (c : Confirms) → c.un_acked ≡ [] → IsAccounted c → IsAccounted (record c { sequence = some 1 })
restarted-IsAccounted c e h = record {
  confirms = h.confirms;
  once = h.once;
  below = rw e tt;
  handled = h.handled;
}

confirms_of : Confirms → Option Exchange → Confirms
confirms_of c none = c
confirms_of c (some e) = e.confirms

arrives :
    (g f : Exchange) (c : Confirms)
    → ◌≡◌ {A = Option Exchange} (some g) (some f)
    → g.confirms ≡ c
    → IsAccounted c
    → IsAccounted f.confirms
unfolding confirms_of
arrives g f c s e h = subst IsAccounted (sym e ∙ ap (confirms_of c) s) h

handle-IsAccounted :
    (m : Incoming) (e f : Exchange)
    → StartsAfresh m e
    → handle m e ≡ some f
    → IsAccounted e.confirms
    → IsAccounted f.confirms
unfolding handle flush put_out set_sequence on_open_ok add_handler set_phase on_declare_ok on_close
    emit_error on_bind_ok on_unbind_ok
handle-IsAccounted channel_open_ok e f fresh s h =
    arrives (on_open_ok e) f _ s
      (if-confirms (is_pre_baked e.name || e.no_declare) _ _ (opens_at_once-confirms _))
      (added-IsAccounted _ (reset-IsAccounted e.confirms h))
handle-IsAccounted exchange_declare_ok e f fresh s h =
    arrives (on_declare_ok e) f _ s
      (if-confirms e.confirms.confirm _ (opens e) (sym (opens-confirms e)) ∙ opens-confirms e) h
handle-IsAccounted confirm_select_ok e f fresh s h =
    arrives (flush (opens (set_sequence (some 1) e))) f _ s
      (opens-confirms (set_sequence (some 1) e)) (restarted-IsAccounted e.confirms fresh h)
handle-IsAccounted channel_close e f fresh s h =
    arrives (on_close e) f (on_error e.confirms) s refl (on_error-IsAccounted e.confirms h)
handle-IsAccounted channel_close_ok e f fresh s h = arrives _ f e.confirms s refl h
handle-IsAccounted basic_return e f fresh s h = arrives _ f e.confirms s refl h
handle-IsAccounted exchange_bind_ok e f fresh s h =
    arrives _ f e.confirms s (if-confirms e.bind_callback _ e refl) h
handle-IsAccounted exchange_unbind_ok e f fresh s h =
    arrives _ f e.confirms s (if-confirms e.unbind_callback _ e refl) h
handle-IsAccounted (basic_ack_of tag multiple) e f fresh s h =
    arrives _ f _ s refl (basic_ack-IsAccounted (low_word tag) multiple e.confirms h)
handle-IsAccounted (other n) e f fresh s h = cc

afresh :
    (m : Incoming) (e g : Exchange) → StartsAfresh m e → g.confirms ≡ e.confirms → StartsAfresh m g
afresh confirm_select_ok e g fresh p = ap (λ (c : Confirms). c.un_acked) p ∙ fresh
afresh _ e g fresh p = tt

either :
    (b : Bool) (g : Exchange) (o : Option Exchange) (f : Exchange)
    → (if b then some g else o) ≡ some f
    → IsAccounted g.confirms
    → (o ≡ some f → IsAccounted f.confirms)
    → IsAccounted f.confirms
either true g o f s h k = arrives g f g.confirms s refl h
either false g o f s h k = k s

on_method-IsAccounted :
    (listeners : ℕ → List (Option ℕ)) (m : Incoming) (e f : Exchange)
    → StartsAfresh m e
    → on_method listeners m e ≡ some f
    → IsAccounted e.confirms
    → IsAccounted f.confirms
unfolding on_method put_out
on_method-IsAccounted listeners m e f fresh s h =
    either (handle_task_reply listeners (number_of m) e.tasks).1 _ _ f s h
      (λ t. handle-IsAccounted m _ f (afresh m e _ fresh refl) t h)

publish-confirms :
    (blocked : Bool) (e : Exchange)
    → (publish blocked e).confirms ≡ publish_confirms blocked (is_open e.phase) e.confirms
unfolding publish
publish-confirms blocked e = if-confirms _ _ _ refl

Step-IsAccounted :
    (listeners : ℕ → List (Option ℕ)) (e f : Exchange)
    → Step listeners e f
    → IsAccounted e.confirms
    → IsAccounted f.confirms
Step-IsAccounted listeners _ _ (publishes blocked e) h =
    subst IsAccounted (sym (publish-confirms blocked e))
      (publish_confirms-IsAccounted blocked (is_open e.phase) e.confirms h)
Step-IsAccounted listeners _ _ (receives m e f fresh s) h =
    on_method-IsAccounted listeners m e f fresh s h
Step-IsAccounted listeners _ _ (set_to phase e) h = unfold set_phase in h
Step-IsAccounted listeners _ _ (fails e) h = on_error-IsAccounted e.confirms h

-- In whatever order an exchange with `confirm` is published to, hears from the server and fails: every
-- call of `publish` so far either waits for its acknowledgement or has had its callback called, and
-- exactly one of the two, exactly once; the keys of what waits are below the next one. It is asked that
-- nothing waits where the server starts to confirm.
pub IsReachable-IsAccounted :
    (listeners : ℕ → List (Option ℕ)) (e : Exchange)
    → IsReachable listeners e
    → IsAccounted e.confirms
IsReachable-IsAccounted listeners _ (starts name no_declare open_callback) =
    new_confirms-IsAccounted
IsReachable-IsAccounted listeners _ (steps e f r s) =
    Step-IsAccounted listeners e f s (IsReachable-IsAccounted listeners e r)

-- Once an exchange with `confirm` has an error, whatever was published to it and came from the server
-- before, where the server starts to confirm only while nothing waits: every call of `publish` so far has
-- had its callback called, exactly once, and no other.
pub on_error-calls_of :
    (listeners : ℕ → List (Option ℕ)) (e : Exchange)
    → IsReachable listeners e
    → (n : ℕ)
    → calls_of n (on_error e.confirms).resolved ≡ one_if (ltb n (on_error e.confirms).published)
unfolding waits
on_error-calls_of listeners e r n =
    let h = IsReachable-IsAccounted listeners e r in
    let after = on_error-IsAccounted e.confirms h in
    let all : 0 + calls_of n (on_error e.confirms).resolved
        ≡ one_if (ltb n (on_error e.confirms).published) =
      rw (on_error-none e.confirms h) at (after.once n) in
    omega (arith, all)
