-- ===== src/Controller/Ending.antt =====
-- The delivery of messages ends where every message that is sent in answer to another has a lower
-- rank than it.
pub mod Rank
pub mod Ranked
use qt_sss_shttps.Common.{
  ℕ, zero, suc, ◌+◌, ◌<◌, ◌≤◌, ◌≡◌, refl, ap, Bool, true, false, Option, none, some, if◌then◌else◌,
  List, [], ◌∷◌, length, get_elem?, arith, All, if-both,
}
use qt_sss_shttps.Text.{Text}
use qt_sss_shttps.Hash.{lookup, insert, has_key}
use qt_sss_shttps.Json.{Fields}
use qt_sss_shttps.Controller.{
  Request, sends, asks_quit, ModuleClass, Entry, unknown_receiver, Controller, Outcome, leaves,
  null_pointer, unfinished, and_then, report, put, call, stop_each, stop_modules, take_out,
  kill_one, kill_each, kill_modules, quit,
}
use qt_sss_shttps.Controller.Dispatch.{
  Delivery, carry_out, after_message, hand_over, to_all, to_named, dispatch,
}

-- The call returned, or went through a null pointer, but did not run out of fuel.
abbrev pub Ends : {M : Type 0} → Outcome M → Type 0
Ends (leaves c) = Unit
Ends null_pointer = Unit
Ends unfinished = ⊥

-- A request whose message has a rank below n.
abbrev pub IsBelow : (rank : Fields → ℕ) → ℕ → Request → Type 0
IsBelow rank n (sends receivers message) = rank message < n
IsBelow rank n asks_quit = Unit

-- What is sent while a message is handled.
abbrev pub sent_by : {M : Type 0} → Option (M × List Request) → List Request
sent_by none = []
sent_by (some (m, rs)) = rs

-- What a module sends while it handles a message ranks below the message.
pub record IsRanked {M : Type 0} (k : ModuleClass M) (rank : Fields → ℕ) : Type 0 where
  pub lower :
      (message : Fields) (m : M)
      → All (IsBelow rank (rank message)) (sent_by (k.on_message message m))

module _ {M : Type 0} (k : ModuleClass M) where
  and_then-Ends :
      (o : Outcome M) (f : Controller M → Outcome M)
      → Ends o
      → ((c : Controller M) → Ends (f c))
      → Ends (and_then o f)
  unfolding and_then
  and_then-Ends (leaves c) f h g = g c
  and_then-Ends null_pointer f h g = tt
  and_then-Ends unfinished f h g = h

  put-Ends : (uid : Text) (e : Entry) (o : Option M) (c : Controller M) → Ends (put k uid e o c)
  unfolding put
  put-Ends uid e none c = tt
  put-Ends uid e (some m) c = tt

  call-Ends :
      (method : M → Option M) (entry : Text → Entry) (uid : Text) (c : Controller M)
      → Ends (call k method entry uid c)
  unfolding call
  call-Ends method entry uid c =
      elim (lookup uid c.modules)
        as (λ o.
          Ends (elim o [ none ↦ null_pointer | some m ↦ put k uid (entry uid) (method m) c ])) [
            | none ↦ tt
            | some m ↦ put-Ends uid (entry uid) (method m) c
          ]

  take_out-Ends : (uid : Text) (o : Option M) (c : Controller M) → Ends (take_out k uid o c)
  unfolding take_out
  take_out-Ends uid none c = tt
  take_out-Ends uid (some m) c = tt

  kill_one-Ends : (uid : Text) (c : Controller M) → Ends (kill_one k uid c)
  unfolding kill_one
  kill_one-Ends uid c =
      elim (lookup uid c.modules)
        as (λ o. Ends (elim o [ none ↦ null_pointer | some m ↦ take_out k uid (k.die m) c ])) [
          | none ↦ tt
          | some m ↦ take_out-Ends uid (k.die m) c
        ]

  stop_each-Ends : (uids : List Text) (c : Controller M) → Ends (stop_each k uids c)
  unfolding stop_each
  stop_each-Ends [] c = tt
  stop_each-Ends (uid ∷ uids) c = and_then-Ends _ _ (stop_each-Ends uids c) (call-Ends k.stop _ uid)

  kill_each-Ends : (uids : List Text) (c : Controller M) → Ends (kill_each k uids c)
  unfolding kill_each
  kill_each-Ends [] c = tt
  kill_each-Ends (uid ∷ uids) c = and_then-Ends _ _ (kill_each-Ends uids c) (kill_one-Ends uid)

  quit-Ends : (c : Controller M) → Ends (quit k c)
  unfolding quit stop_modules kill_modules
  quit-Ends c =
      and_then-Ends _ _ (and_then-Ends _ _ (stop_each-Ends c.uids c) (λ d. tt))
        (λ d. and_then-Ends _ _ (and_then-Ends _ _ (kill_each-Ends d.uids d) (λ x. tt)) (λ x. tt))

  -- A delivery that ends for all messages below a rank.
  abbrev EndsBelow : (rank : Fields → ℕ) → ℕ → Delivery k → Type 0
  EndsBelow rank n next =
      (receivers : List Text) (message : Fields) (c : Controller M)
      → rank message < n
      → Ends (next receivers message c)

  carry_out-Ends :
      (rank : Fields → ℕ) (n : ℕ) (next : Delivery k) (rs : List Request) (c : Controller M)
      → EndsBelow rank n next
      → All (IsBelow rank n) rs
      → Ends (carry_out k next rs c)
  unfolding carry_out
  carry_out-Ends rank n next [] c h a = tt
  carry_out-Ends rank n next (sends receivers message ∷ rs) c h (l, a) =
      and_then-Ends _ _ (h receivers message c l) (λ d. carry_out-Ends rank n next rs d h a)
  carry_out-Ends rank n next (asks_quit ∷ rs) c h (l, a) =
      and_then-Ends _ _ (quit-Ends c) (λ d. carry_out-Ends rank n next rs d h a)

  module _ (rank : Fields → ℕ) (ranked : IsRanked k rank) where
    after_message-Ends :
        (next : Delivery k) (message : Fields) (uid : Text) (o : Option (M × List Request))
        (c : Controller M)
        → EndsBelow rank (rank message) next
        → All (IsBelow rank (rank message)) (sent_by o)
        → Ends (after_message k next uid o c)
    unfolding after_message
    after_message-Ends next message uid none c h a = tt
    after_message-Ends next message uid (some (m, rs)) c h a =
        carry_out-Ends rank (rank message) next rs _ h a

    hand_over-Ends :
        (next : Delivery k) (message : Fields) (uid : Text) (c : Controller M)
        → EndsBelow rank (rank message) next
        → Ends (hand_over k next message uid c)
    unfolding hand_over
    hand_over-Ends next message uid c h =
        elim (lookup uid c.modules)
          as (λ o. Ends (elim o [
            | none ↦ null_pointer
            | some m ↦ after_message k next uid (k.on_message message m) c
          ])) [
            | none ↦ tt
            | some m ↦
                after_message-Ends next message uid (k.on_message message m) c h
                  (ranked.lower message m)
          ]

    to_named-Ends :
        (next : Delivery k) (message : Fields) (uids : List Text) (c : Controller M)
        → EndsBelow rank (rank message) next
        → Ends (to_named k next message uids c)
    unfolding to_named
    to_named-Ends next message [] c h = tt
    to_named-Ends next message (uid ∷ uids) c h =
        and_then-Ends _ _
          (if-both Ends (has_key uid c.modules) _ _ (hand_over-Ends next message uid c h) tt)
          (λ d. to_named-Ends next message uids d h)

    to_all-Ends :
        (next : Delivery k) (message : Fields) (rounds i : ℕ) (c : Controller M)
        → EndsBelow rank (rank message) next
        → Ends (to_all k next message rounds i c)
    unfolding to_all
    to_all-Ends next message zero i c h = tt
    to_all-Ends next message (suc n) i c h =
        elim (get_elem? c.uids i)
          as (λ o. Ends (elim o [
            | none ↦ leaves c
            | some uid ↦ and_then (hand_over k next message uid c) (to_all k next message n (suc i))
          ])) [
            | none ↦ tt
            | some uid ↦
                and_then-Ends _ _ (hand_over-Ends next message uid c h)
                  (λ d. to_all-Ends next message n (suc i) d h)
          ]

    -- Where what a module sends while it handles a message ranks below the message, the delivery
    -- of a message ends with fuel above its rank, to whichever modules it goes.
    pub dispatch-Ends :
        (fuel : ℕ) (receivers : List Text) (message : Fields) (c : Controller M)
        → rank message < fuel
        → Ends (dispatch k fuel receivers message c)
    unfolding dispatch
    dispatch-Ends zero receivers message c l = absurd (omega (arith, l))
    dispatch-Ends (suc fuel) [] message c l =
        to_all-Ends (dispatch k fuel) message (length c.uids) 0 c
          (λ rs m d. λ h. dispatch-Ends fuel rs m d (omega (arith, h, l)))
    dispatch-Ends (suc fuel) (uid ∷ uids) message c l =
        to_named-Ends (dispatch k fuel) message (uid ∷ uids) c
          (λ rs m d. λ h. dispatch-Ends fuel rs m d (omega (arith, h, l)))
