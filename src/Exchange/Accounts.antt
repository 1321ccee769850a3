-- ===== src/Exchange/Accounts.antt =====
-- lib/exchange.js: the callback of every call of `publish` on an exchange with `confirm` is called once,
-- or waits for its acknowledgement.
use node_amqp.Prelude.{
  ℕ, ◌+◌, ◌≡◌, refl, sym, arith, ◌==◌, ltb, leb, ◌⊎◌, inl, inr, Bool, true, false, List, [], ◌∷◌,
  Option, none, some, if◌then◌else◌, subst,
}
use node_amqp.Exchange.Confirms.{
  Confirms, new_confirms, taken_out, marked, resolve, on_error, basic_ack, refuse, await_confirm,
  accept, publish_confirms,
}
use node_amqp.Exchange.Counts.{
  one_if, waits, calls_of, AreBelow, calls_of-append, calls_of-marked, waits-set_un_acked,
  AreBelow-set_un_acked, waits-taken_out, AreBelow-taken_out, taken_out-all,
}

abbrev pub IsBelow : Option ℕ → List (ℕ × ℕ) → Type 0
IsBelow none us = Unit
IsBelow (some s) us = AreBelow s us

-- Every call so far waits or was called back, once; the keys are below the next one; and where a call
-- waits, the error handler is there.
pub record IsAccounted (c : Confirms) : Type 0 where
  pub confirms : c.confirm ≡ true
  pub once : (n : ℕ) → waits n c.un_acked + calls_of n c.resolved ≡ one_if (ltb n c.published)
  pub below : IsBelow c.sequence c.un_acked
  pub handled : (c.un_acked ≡ []) ⊎ (c.handler_added ≡ true)

pub new_confirms-IsAccounted : IsAccounted (new_confirms true)
unfolding waits calls_of
new_confirms-IsAccounted = record {
  confirms = refl;
  once = λ n. ground arith;
  below = tt;
  handled = inl refl;
}

one_more : (n m : ℕ) → one_if (ltb n m) + one_if (m == n) ≡ one_if (ltb n (m + 1))
one_more n m = ground arith

refuse-IsAccounted : (c : Confirms) → IsAccounted c → IsAccounted (refuse c)
unfolding refuse calls_of
refuse-IsAccounted c h = record {
  confirms = h.confirms;
  once = λ n. omega (
    arith,
    h.once n,
    calls_of-append n c.resolved ((c.published, true) ∷ []),
    one_more n c.published,
  );
  below = h.below;
  handled = h.handled;
}

await-IsAccounted :
    (s : ℕ) (c : Confirms) → c.sequence ≡ some s → IsAccounted c → IsAccounted (await_confirm s c)
unfolding await_confirm
await-IsAccounted s c e h =
    let below : AreBelow s c.un_acked = rw e at h.below in
    record {
      confirms = h.confirms;
      once = λ n. omega (
        arith,
        h.once n,
        waits-set_un_acked n s c.published c.un_acked below,
        one_more n c.published,
      );
      below = AreBelow-set_un_acked s c.published c.un_acked below;
      handled = inr refl;
    }

IsBelow-taken_out :
    (s : Option ℕ) (p : ℕ → Bool) (us : List (ℕ × ℕ)) → IsBelow s us → IsBelow s (taken_out p us).1
IsBelow-taken_out none p us h = tt
IsBelow-taken_out (some s) p us h = AreBelow-taken_out s p us h

left_handled :
    (p : ℕ → Bool) (us : List (ℕ × ℕ)) (b : Bool)
    → (us ≡ []) ⊎ (b ≡ true)
    → ((taken_out p us).1 ≡ []) ⊎ (b ≡ true)
unfolding taken_out
left_handled p us b (inl e) = inl (rw e refl)
left_handled p us b (inr e) = inr e

pub resolve-IsAccounted :
    (p : ℕ → Bool) (failed : Bool) (c : Confirms) → IsAccounted c → IsAccounted (resolve p failed c)
unfolding resolve
resolve-IsAccounted p failed c h = record {
  confirms = h.confirms;
  once = λ n. omega (
    arith,
    h.once n,
    calls_of-append n c.resolved (marked failed (taken_out p c.un_acked).0),
    calls_of-marked n failed (taken_out p c.un_acked).0,
    waits-taken_out n p c.un_acked,
  );
  below = IsBelow-taken_out c.sequence p c.un_acked h.below;
  handled = left_handled p c.un_acked c.handler_added h.handled;
}

if-IsAccounted :
    (b : Bool) (c d : Confirms) → IsAccounted c → IsAccounted d → IsAccounted (if b then c else d)
if-IsAccounted true c d h k = h
if-IsAccounted false c d h k = k

pub basic_ack-IsAccounted :
    (n : ℕ) (multiple : Bool) (c : Confirms) → IsAccounted c → IsAccounted (basic_ack n multiple c)
unfolding basic_ack
basic_ack-IsAccounted n multiple c h =
    if-IsAccounted multiple _ _
      (if-IsAccounted (n == 0) _ _ (resolve-IsAccounted (λ k. true) false c h)
        (resolve-IsAccounted (λ k. leb k n) false c h))
      (resolve-IsAccounted (λ k. k == n) false c h)

pub on_error-IsAccounted : (c : Confirms) → IsAccounted c → IsAccounted (on_error c)
unfolding on_error
on_error-IsAccounted c h =
    if-IsAccounted c.handler_added _ _
      (if-IsAccounted c.confirm _ _ (resolve-IsAccounted (λ k. true) true c h) h) h

-- `this._sequence = null`
pub reset-IsAccounted : (c : Confirms) → IsAccounted c → IsAccounted (record c { sequence = none })
reset-IsAccounted c h = record {
  confirms = h.confirms;
  once = h.once;
  below = tt;
  handled = h.handled;
}

accept-IsAccounted :
    (sequence : Option ℕ) (c : Confirms)
    → c.sequence ≡ sequence
    → IsAccounted c
    → IsAccounted (accept true sequence c)
unfolding accept
accept-IsAccounted none c e h = refuse-IsAccounted c h
accept-IsAccounted (some s) c e h = await-IsAccounted s c e h

pub publish_confirms-IsAccounted :
    (blocked opened : Bool) (c : Confirms)
    → IsAccounted c
    → IsAccounted (publish_confirms blocked opened c)
unfolding publish_confirms
publish_confirms-IsAccounted blocked opened c h =
    if-IsAccounted blocked _ _ (refuse-IsAccounted c h) (
      if-IsAccounted opened _ _
        (subst (λ (b : Bool). IsAccounted (accept b c.sequence c)) (sym h.confirms)
          (accept-IsAccounted c.sequence c refl h))
        (refuse-IsAccounted (record c { sequence = none }) (reset-IsAccounted c h)))

if-none :
    (b : Bool) (c d : Confirms)
    → c.un_acked ≡ []
    → d.un_acked ≡ []
    → (if b then c else d).un_acked ≡ []
if-none true c d h k = h
if-none false c d h k = k

-- An error leaves nothing waiting.
pub on_error-none : (c : Confirms) → IsAccounted c → (on_error c).un_acked ≡ []
unfolding on_error resolve
on_error-none c h = elim h.handled [
  | inl e ↦
      if-none c.handler_added _ _
        (if-none c.confirm _ _ (taken_out-all (λ k. true) c.un_acked (λ k. refl)) e) e
  | inr e ↦ rw (e, h.confirms) (taken_out-all (λ k. true) c.un_acked (λ k. refl))
]
