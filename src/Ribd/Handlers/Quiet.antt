-- ===== src/Ribd/Handlers/Quiet.antt =====
-- Ribd.c and Ribd_requests.c: the handlers that leave the connections as they are.
use mathlib.Core.Option.{some-injective}
use rinasense.Base.{
  ℕ, ◌-◌, ◌^◌, ◌≡◌, refl, ap, ◌∙◌, sym, subst, true, false, Option, none, some, List, [], ◌==◌,
  get_elem?, arith, Bool-cases, Option-cases, inl, inr,
}
use rinasense.Ribd.{
  OpCode, Message, RibObject, RibState, PendingReq, Outcome, returned, blocked, crashed, Output,
  Memory, rib_lock, rib_unlock, rib_output, Connection,
}
use rinasense.Ribd.Messages.{create_response}
use rinasense.Ribd.Pending.{find_pending_response, find_pending}
use rinasense.Ribd.Objects.{object_find, get_object_method, get_object_reply_method}
use rinasense.Ribd.Requests.{object_reply}
use rinasense.Ribd.Handlers.{
  connect_response, deliver_reply, object_handles_reply, handle_any_reply, handle_any_request,
}

-- The connections after a call are the ones before it.
abbrev pub Same : List Connection → Outcome → Type 0
Same rows (returned status r) = r.connections ≡ rows
Same rows blocked = Unit
Same rows crashed = Unit

taken :
    (r : RibState)
    → r.do_lock ≡ true
    → r.locked ≡ false
    → rib_lock r ≡ some (record r { locked = true })
taken r e f = rw (e, f)

free_of_lock : (r : RibState) → r.do_lock ≡ false → rib_lock r ≡ some r
free_of_lock r e = rw (e)

pub rib_lock-Same : (r r1 : RibState) → rib_lock r ≡ some r1 → r1.connections ≡ r.connections
rib_lock-Same r r1 h = elim (Bool-cases r.do_lock) [
  | inl e ↦ elim (Bool-cases r.locked) [
    | inl f ↦ absurd (ground (arith, e, f, h))
    | inr f ↦ ap (λ s. s.connections) (sym (some-injective _ _ (sym (taken r e f) ∙ h)))
  ]
  | inr e ↦ ap (λ s. s.connections) (sym (some-injective _ _ (sym (free_of_lock r e) ∙ h)))
]

pub rib_unlock-Same : (r : RibState) → (rib_unlock r).connections ≡ r.connections
rib_unlock-Same r = elim (Bool-cases r.do_lock) [ inl e ↦ rw (e) | inr e ↦ rw (e) ]

-- A message sent under the lock.
locked_send-Same :
    (output : Output) (r r1 : RibState) (msg : Message) (port : ℕ)
    → rib_lock r ≡ some r1
    → Same r.connections
        (returned (rib_output output r1 msg port).0 (rib_unlock (rib_output output r1 msg port).1))
locked_send-Same output r r1 msg port h =
    rib_unlock-Same (rib_output output r1 msg port).1 ∙ rib_lock-Same r r1 h

pub object_reply-Same :
    (mem : Memory) (output : Output) (r : RibState) (o : RibObject) (op port id code : ℕ)
    (reason value : Option (List ℕ))
    → Same r.connections (object_reply mem output r o op port id code reason value)
unfolding object_reply
object_reply-Same mem output r o op port id code reason value =
    let made =
      create_response mem (some o.obj_class) (some o.obj_name) o.obj_inst op value code reason id in
    elim (Option-cases (rib_lock r)) [
      | inl e ↦ rw (object_reply, e) tt
      | inr (r1, e) ↦ elim (Option-cases made) [
        | inl f ↦ rw (object_reply, e, f) tt
        | inr (msg, f) ↦ rw (object_reply, e, f) (locked_send-Same output r r1 msg port e)
      ]
    ]

pub connect_response-Same :
    (mem : Memory) (output : Output) (r : RibState) (port : ℕ) (msg : Message)
    → Same r.connections (connect_response mem output r port msg)
unfolding connect_response
connect_response-Same mem output r port msg =
    let made = create_response mem (some []) (some []) (2 ^ 64 - 1) 1 none 0 none msg.invoke_id in
    elim (Option-cases (rib_lock r)) [
      | inl e ↦ rw (connect_response, e) tt
      | inr (r1, e) ↦ elim (Option-cases made) [
        | inl f ↦ rw (connect_response, e, f) tt
        | inr (response, f) ↦
            rw (connect_response, e, f) (locked_send-Same output r r1 response port e)
      ]
    ]

deliver_reply-Same :
    (r : RibState) (i : ℕ) (pending : PendingReq) (result : ℕ × ℕ)
    → Same r.connections (deliver_reply r i pending result)
unfolding deliver_reply
deliver_reply-Same r i pending result = elim (Bool-cases (result.0 == 0)) [
  | inl e ↦ elim (Option-cases pending.callback) [
    | inl f ↦ rw (deliver_reply, e, f) refl
    | inr (callback, f) ↦ rw (deliver_reply, e, f) refl
  ]
  | inr e ↦ rw (deliver_reply, e) refl
]

object_handles_reply-Same :
    (r : RibState) (op : OpCode) (found : Option ℕ) (msg : Message) (i : ℕ) (pending : PendingReq)
    → Same r.connections (object_handles_reply r op found msg i pending)
unfolding object_handles_reply
object_handles_reply-Same r op found msg i pending =
    elim (Option-cases (object_find r pending.obj_name)) [
      | inl e ↦ rw (object_handles_reply, e) tt
      | inr (none, e) ↦ rw (object_handles_reply, e) refl
      | inr (some o, e) ↦ elim (Option-cases (get_object_reply_method o op)) [
        | inl f ↦ rw (object_handles_reply, e, f) tt
        | inr (none, f) ↦ rw (object_handles_reply, e, f) refl
        | inr (some method, f) ↦ rw (object_handles_reply, e, f) (deliver_reply-Same r i pending _)
      ]
    ]

pub handle_any_request-Same :
    (r : RibState) (op : OpCode) (found : Option ℕ) (msg : Message)
    → Same r.connections (handle_any_request r op found msg)
unfolding handle_any_request
handle_any_request-Same r op found msg = elim (Option-cases (object_find r msg.obj_name)) [
  | inl e ↦ rw (handle_any_request, e) tt
  | inr (none, e) ↦ rw (handle_any_request, e) refl
  | inr (some o, e) ↦ elim (Option-cases (get_object_method o op)) [
    | inl f ↦ rw (handle_any_request, e, f) tt
    | inr (none, f) ↦ rw (handle_any_request, e, f) refl
    | inr (some method, f) ↦ rw (handle_any_request, e, f) refl
  ]
]

pub find_pending_response-step :
    (r r1 : RibState) (id : ℕ)
    → rib_lock r ≡ some r1
    → find_pending_response r id ≡ some (find_pending id r1.pending_reqs, rib_unlock r1)
unfolding find_pending_response
find_pending_response-step r r1 id e = rw (find_pending_response, e)

find_pending_response-blocked :
    (r : RibState) (id : ℕ) → rib_lock r ≡ none → find_pending_response r id ≡ none
unfolding find_pending_response
find_pending_response-blocked r id e = rw (find_pending_response, e)

find_pending_response-Same :
    (r : RibState) (id : ℕ) (found : Option ℕ × RibState)
    → find_pending_response r id ≡ some found
    → found.1.connections ≡ r.connections
find_pending_response-Same r id found h = elim (Option-cases (rib_lock r)) [
  | inl e ↦ absurd (cc (sym (find_pending_response-blocked r id e) ∙ h))
  | inr (r1, e) ↦
      ap (λ p. p.1.connections)
        (sym (some-injective _ _ (sym (find_pending_response-step r r1 id e) ∙ h)))
      ∙ (rib_unlock-Same r1 ∙ rib_lock-Same r r1 e)
]

pub handle_any_reply-Same :
    (r : RibState) (op : OpCode) (found : Option ℕ) (msg : Message)
    → Same r.connections (handle_any_reply r op found msg)
unfolding handle_any_reply
handle_any_reply-Same r op found msg = elim (Option-cases (find_pending_response r msg.invoke_id)) [
  | inl e ↦ rw (handle_any_reply, e) tt
  | inr ((none, r1), e) ↦
      rw (handle_any_reply, e) (find_pending_response-Same r msg.invoke_id (none, r1) e)
  | inr ((some i, r1), e) ↦ elim (Option-cases (get_elem? r1.pending_reqs i)) [
    | inl f ↦ rw (handle_any_reply, e, f) tt
    | inr (pending, f) ↦
        rw (handle_any_reply, e, f)
          (subst (λ rows. Same rows (object_handles_reply r1 op found msg i pending))
            (find_pending_response-Same r msg.invoke_id (some i, r1) e)
            (object_handles_reply-Same r1 op found msg i pending))
  ]
]
