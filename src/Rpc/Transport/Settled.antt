-- ===== src/Rpc/Transport/Settled.antt =====
-- No call waits for a connection that is closed.
use nas_os.Common.{
  String, true, false, Option, none, some, [], ◌∷◌, Result, ok, err, is_some, ◌≡◌, refl, sym, ap,
  ◌∙◌, arith, ◌==◌, string_eq, Bool-cases, inl, inr,
}
use nas_os.Common.Dict
use nas_os.Common.Dict.{Dict, lookup-nil, lookup-cons, lookup-insert, lookup-erase}
use nas_os.Common.Errors.{Exc, other_error}
use nas_os.Rpc.Transport.{
  RpcResponse, Future, waiting, settled, Calls, no_calls, begin_call, settle, dispatch_response,
  fail_all, close_connection, is_waiting, end_call, Reach, initial, begun, answered, closed, ended,
}

module _ {J : Type 0} where
  -- A future that is waiting is the one of a pending call.
  abbrev pub IsTracked : Calls J → Type 0
  IsTracked c =
      (id : String)
      → Dict.lookup id c.futures ≡ some waiting
      → is_some (Dict.lookup id c.pending) ≡ true

  waiting_of : (found : Option (Future J)) → is_waiting found ≡ true → found ≡ some waiting
  unfolding is_waiting
  waiting_of none h = cc
  waiting_of (some waiting) h = refl
  waiting_of (some (settled _)) h = cc

  lookup-settle_of :
      (outcome : Result Exc (RpcResponse J)) (id key : String) (futures : Dict String (Future J))
      (found : Option (Future J))
      → Dict.lookup id futures ≡ found
      → Dict.lookup key (settle outcome id found futures) ≡ some waiting
      → ((key == id) ≡ false) × (Dict.lookup key futures ≡ some waiting)
  unfolding settle
  lookup-settle_of outcome id key futures none at h = ground (arith, at, h)
  lookup-settle_of outcome id key futures (some (settled o)) at h = ground (arith, at, h)
  lookup-settle_of outcome id key futures (some waiting) at h =
      let found = sym (lookup-insert key id (settled outcome) futures) ∙ h in
      elim (Bool-cases (key == id)) [
        | inl e ↦ let h' = rw e at found in cc
        | inr e ↦ (e, rw e at found)
      ]

  -- Settling a future leaves no other one waiting that was not, and not its own.
  lookup-settle :
      (outcome : Result Exc (RpcResponse J)) (id key : String) (futures : Dict String (Future J))
      → Dict.lookup key (settle outcome id (Dict.lookup id futures) futures) ≡ some waiting
      → ((key == id) ≡ false) × (Dict.lookup key futures ≡ some waiting)
  lookup-settle outcome id key futures h =
      lookup-settle_of outcome id key futures (Dict.lookup id futures) refl h

  lookup-fail_all :
      (pending : Dict String (Unit {0})) (futures : Dict String (Future J)) (key : String)
      → Dict.lookup key (fail_all pending futures) ≡ some waiting
      → (Dict.lookup key futures ≡ some waiting) × (Dict.lookup key pending ≡ none)
  unfolding fail_all
  lookup-fail_all [] futures key h = (h, lookup-nil key)
  lookup-fail_all ((id, u) ∷ pending) futures key h =
      let outcome = err (other_error "agent connection closed") in
      let (first, absent) =
        lookup-fail_all pending (settle outcome id (Dict.lookup id futures) futures) key h in
      let (differs, still) = lookup-settle outcome id key futures first in
      (still, lookup-cons key id u pending ∙ rw differs absent)

  close_connection-done :
      (c : Calls J) (id : String)
      → IsTracked c
      → is_waiting (Dict.lookup id (close_connection c).futures) ≡ false
  unfolding close_connection
  close_connection-done c id t =
      elim (Bool-cases (is_waiting (Dict.lookup id (fail_all c.pending c.futures)))) [
        | inr e ↦ e
        | inl e ↦
            let (still, absent) = lookup-fail_all c.pending c.futures id (waiting_of _ e) in
            let pending = t id still in let h' = rw absent at pending in cc
      ]

  begin_call-IsTracked : (c : Calls J) (id : String) → IsTracked c → IsTracked (begin_call id c)
  unfolding begin_call
  begin_call-IsTracked c id t key h = elim (Bool-cases (key == id)) [
    | inl e ↦ rw (lookup-insert key id tt c.pending, e) refl
    | inr e ↦
        let found = sym (lookup-insert key id waiting c.futures) ∙ h in
        rw (lookup-insert key id tt c.pending, e) (t key (rw e at found))
  ]

  dispatch_response-IsTracked :
      (c : Calls J) (resp : RpcResponse J) → IsTracked c → IsTracked (dispatch_response resp c)
  unfolding dispatch_response
  dispatch_response-IsTracked c resp t key h =
      elim (Bool-cases (is_some (Dict.lookup resp.id c.pending))) [
        | inl e ↦
            let (differs, still) = lookup-settle (ok resp) resp.id key c.futures (rw e at h) in
            rw (e, lookup-erase key resp.id c.pending, differs) (t key still)
        | inr e ↦ rw e (t key (rw e at h))
      ]

  differs_of_waiting :
      (c : Calls J) (id key : String)
      → Dict.lookup key c.futures ≡ some waiting
      → is_waiting (Dict.lookup id c.futures) ≡ false
      → (key == id) ≡ false
  unfolding is_waiting
  differs_of_waiting c id key still e = elim (Bool-cases (key == id)) [
    | inr n ↦ n
    | inl p ↦
        let same : key ≡ id = ground arith in
        let at : Dict.lookup id c.futures ≡ some waiting =
          ap (λ k. Dict.lookup k c.futures) (sym same) ∙ still in
        let h' = rw at at e in cc
  ]

  end_call-IsTracked : (c : Calls J) (id : String) → IsTracked c → IsTracked (end_call id c)
  unfolding end_call
  end_call-IsTracked c id t key h = elim (Bool-cases (is_waiting (Dict.lookup id c.futures))) [
    | inl e ↦ rw e (t key (rw e at h))
    | inr e ↦
        let still : Dict.lookup key c.futures ≡ some waiting = rw e at h in
        rw (e, lookup-erase key id c.pending, differs_of_waiting c id key still e) (t key still)
  ]

  close_connection-IsTracked : (c : Calls J) → IsTracked c → IsTracked (close_connection c)
  unfolding is_waiting
  close_connection-IsTracked c t key h =
      let over = close_connection-done c key t in let h' = rw h at over in cc

  no_calls-IsTracked : IsTracked (no_calls {J = J})
  no_calls-IsTracked id h = let h' = sym (lookup-nil id) ∙ h in cc

  -- In every reachable state each call that waits for its future is still entered as pending, so
  -- that its response finds it.
  pub Reach-IsTracked : {c : Calls J} → Reach J c → IsTracked c
  Reach-IsTracked initial = no_calls-IsTracked
  Reach-IsTracked (begun {c} id r) = begin_call-IsTracked c id (Reach-IsTracked r)
  Reach-IsTracked (answered {c} resp r) = dispatch_response-IsTracked c resp (Reach-IsTracked r)
  Reach-IsTracked (closed {c} r) = close_connection-IsTracked c (Reach-IsTracked r)
  Reach-IsTracked (ended {c} id r) = end_call-IsTracked c id (Reach-IsTracked r)

  -- When the connection is closed in a reachable state, no call is left waiting.
  pub Reach-closed :
      {c : Calls J}
      → Reach J c
      → (id : String) → is_waiting (Dict.lookup id (close_connection c).futures) ≡ false
  Reach-closed {c} r id = close_connection-done c id (Reach-IsTracked r)
