-- ===== src/Approval/Quorum/Refreshes.antt =====
-- What time does to the requests of the inbox keeps their quorum, and so do the steps that every
-- mutation shares.
use ghostapi.Common.{
  both, ℕ, Text, lit, ◌≡◌, refl, subst, true, false, ◌&&◌, List, [], ◌∷◌, all, leb, arith, and_left,
  and_right, find, Option, none, Option-cases, Bool-cases, inl, inr, ok, ok_inj,
}
use ghostapi.Common.Action.{Op, Keeps, Leaves, Leaves-bind, continue, continue-keeps, continue-elim}
use ghostapi.Approval.Types.{Env, Request, RequestStatus, timed_out, expired, State}
use ghostapi.Approval.Requests.{needs_artifact}
use ghostapi.Approval.Standing.{has_id, is_pending, is_active, find_request}
use ghostapi.Approval.Inbox.{
  append_audit_of, append_audit, close, refresh_one, refresh_all, refresh, put_request,
}
use ghostapi.Approval.Quorum.{quorate, AreQuorate, all-find, all-update}

-- A request that is not approved, or no longer, needs no quorum.
pub closed-quorate :
    (r : Request) (status : RequestStatus)
    → needs_artifact status ≡ false
    → quorate r ≡ true
    → quorate (record r { status = status }) ≡ true
closed-quorate r status e q = ground arith

module _ (env : Env) where
  pub append_audit_of-requests :
      (receipt_hash : Option Text) (event : Text) (r : Request) (actor : Text) (now : ℕ)
      → Leaves (λ s. s.requests) (append_audit_of env receipt_hash event r actor now)
  unfolding append_audit_of
  append_audit_of-requests receipt_hash event r actor now s = ground arith

  pub append_audit-requests :
      (event : Text) (r : Request) (actor : Text) (now : ℕ)
      → Leaves (λ s. s.requests) (append_audit env event r actor now)
  unfolding append_audit
  append_audit-requests event r actor now s = append_audit_of-requests none event r actor now s

  close-requests :
      (event : Text) (status : RequestStatus) (now : ℕ) (r : Request)
      → Leaves (λ s. s.requests) (close env event status now r)
  unfolding close
  close-requests event status now r =
      Leaves-bind (λ s. s.requests) (append_audit env event r _ now) _
        (append_audit-requests event r _ now) (λ _ s. refl)

  refresh_one-requests : (now : ℕ) (r : Request) → Leaves (λ s. s.requests) (refresh_one env now r)
  unfolding refresh_one
  refresh_one-requests now r s = ground (
    arith,
    close-requests (lit "request.timed_out") timed_out now r s,
    close-requests (lit "request.expired") expired now r s,
  )

  pub refresh_all-requests :
      (now : ℕ) (rs : List Request) → Leaves (λ s. s.requests) (refresh_all env now rs)
  unfolding refresh_all
  refresh_all-requests now [] s = refl
  refresh_all-requests now (r ∷ rs) s =
      Leaves-bind (λ s. s.requests) (refresh_one env now r) _ (refresh_one-requests now r)
        (λ r'.
          Leaves-bind (λ s. s.requests) (refresh_all env now rs) _ (refresh_all-requests now rs)
            (λ rs' s. refl))
        s

  close-quorate :
      (event : Text) (status : RequestStatus) (now : ℕ) (r : Request) (s : State) {r' : Request}
      → needs_artifact status ≡ false
      → quorate r ≡ true
      → (close env event status now r s).0 ≡ ok r'
      → quorate r' ≡ true
  unfolding close
  close-quorate event status now r s {r'} n q h =
      continue-elim (append_audit env event r _ now s).0 _ _ h
        λ _ _ e _. subst (λ x. quorate x ≡ true) (ok_inj e) (closed-quorate r status n q)

  refresh_one-quorate :
      (now : ℕ) (r : Request) (s : State) {r' : Request}
      → quorate r ≡ true
      → (refresh_one env now r s).0 ≡ ok r'
      → quorate r' ≡ true
  unfolding refresh_one needs_artifact
  refresh_one-quorate now r s {r'} q h =
      elim (Bool-cases (is_pending r.status && leb r.escalation_at now)) [
        | inl e ↦ close-quorate (lit "request.timed_out") timed_out now r s refl q (rw e at h)
        | inr e ↦ elim (Bool-cases (is_active r.status && leb r.expires_at now)) [
          | inl k ↦ close-quorate (lit "request.expired") expired now r s refl q (rw (e, k) at h)
          | inr k ↦ subst (λ x. quorate x ≡ true) (ok_inj (rw (e, k) at h)) q
        ]
      ]

  refresh_all-quorate :
      (now : ℕ) (rs : List Request) (s : State) {rs' : List Request}
      → all rs quorate ≡ true
      → (refresh_all env now rs s).0 ≡ ok rs'
      → all rs' quorate ≡ true
  unfolding refresh_all
  refresh_all-quorate now [] s q h = subst (λ x. all x quorate ≡ true) (ok_inj h) refl
  refresh_all-quorate now (r ∷ rs) s q h =
      continue-elim (refresh_one env now r s).0 _ _ h λ r' e h1 _.
        continue-elim (refresh_all env now rs _).0 _ _ h1 λ rs' e' h2 _.
          subst (λ x. all x quorate ≡ true) (ok_inj h2)
            (both (refresh_one-quorate now r s (and_left (quorate r) (all rs quorate) q) e)
              (refresh_all-quorate now rs _ (and_right (quorate r) (all rs quorate) q) e'))

  pub refresh-Keeps : (now : ℕ) → Keeps AreQuorate (refresh env now)
  unfolding refresh
  refresh-Keeps now s q =
      continue-keeps AreQuorate (refresh_all env now s.requests s).0 _ _
        (rw (refresh_all-requests now s.requests s) q)
        λ rs e. refresh_all-quorate now s.requests s q e

  pub put_request-Keeps : (r : Request) → quorate r ≡ true → Keeps AreQuorate (put_request env r)
  put_request-Keeps r k s q = all-update quorate (has_id r.id) r s.requests q k

  pub append_audit-Keeps :
      (event : Text) (r : Request) (actor : Text) (now : ℕ)
      → Keeps AreQuorate (append_audit env event r actor now)
  append_audit-Keeps event r actor now s q = rw (append_audit-requests event r actor now s) q

  pub find_request-quorate :
      (s : State) (id : Text) {r : Request}
      → AreQuorate s
      → find_request s id ≡ ok r
      → quorate r ≡ true
  unfolding find_request
  find_request-quorate s id {r} q h = elim (Option-cases (find (has_id id) s.requests)) [
    | inl e ↦ (let k = rw (find_request, e) at h in cc)
    | inr (x, e) ↦
        subst (λ y. quorate y ≡ true) (ok_inj (rw (find_request, e) at h))
          (all-find quorate (has_id id) s.requests q e)
  ]

  -- What every mutation that changes one request does first.
  pub on_request :
      {B : Type 0} (id : Text) (now : ℕ) (s : State) (f : Request → Op State B)
      → AreQuorate s
      → ((r : Request) (t : State) → AreQuorate t → quorate r ≡ true → AreQuorate (f r t).1)
      → AreQuorate
          (continue
            (refresh env now s).0
            (refresh env now s).1
            (λ _ t. continue (find_request t id) t f)).1
  on_request id now s f q keeps =
      continue-keeps AreQuorate (refresh env now s).0 (refresh env now s).1 _
        (refresh-Keeps now s q)
        λ _ _.
          let t = (refresh env now s).1 in
          continue-keeps AreQuorate (find_request t id) t f (refresh-Keeps now s q) λ r e.
            keeps r t (refresh-Keeps now s q) (find_request-quorate t id (refresh-Keeps now s q) e)
