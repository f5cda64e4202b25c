-- ===== src/Actions/Bulk/Laws.antt =====
-- What the bulk buttons do, in every order in which their requests end.
use mathlib.Core.List.{append_assoc, append-nil}
use phan_tan_dkron_giuaky.Common.{
  All, All-append, subst, suc, ◌+◌, ◌<◌, ◌≡◌, refl, sym, ap, ◌∙◌, true, false, List, [], ◌∷◌, ◌++◌,
  map, String, length, length-append, arith,
}
use phan_tan_dkron_giuaky.Actions.Button.Laws.{IsPost, method-request_for}
use phan_tan_dkron_giuaky.Actions.Button.{Kind, request_for}
use phan_tan_dkron_giuaky.Actions.Bulk.{State, idle, send, send_all, settle, notice_for, Step, Run}

module _ (kind : Kind) (api : String) where
  send_all-sent :
      (s : State) (ids : List String)
      → (send_all kind api s ids).sent ≡ s.sent ++ map (request_for kind api) ids
  unfolding send_all send
  send_all-sent s [] = sym (append-nil s.sent)
  send_all-sent s (id ∷ ids) =
      send_all-sent (send kind api s id) ids
      ∙ append_assoc s.sent (request_for kind api id ∷ []) (map (request_for kind api) ids)

  send_all-pending :
      (s : State) (ids : List String)
      → (send_all kind api s ids).pending ≡ s.pending ++ map (request_for kind api) ids
  unfolding send_all send
  send_all-pending s [] = sym (append-nil s.pending)
  send_all-pending s (id ∷ ids) =
      send_all-pending (send kind api s id) ids
      ∙ append_assoc s.pending (request_for kind api id ∷ []) (map (request_for kind api) ids)

  send_all-kept :
      (s : State) (ids : List String)
      → ((send_all kind api s ids).notices ≡ s.notices)
        × ((send_all kind api s ids).refreshes ≡ s.refreshes)
  unfolding send_all send
  send_all-kept s [] = (refl, refl)
  send_all-kept s (id ∷ ids) = send_all-kept (send kind api s id) ids

  All-requests : (ids : List String) → All IsPost (map (request_for kind api) ids)
  All-requests [] = tt
  All-requests (id ∷ ids) = (method-request_for kind api id, All-requests ids)

  -- Each request sent is a POST, and is pending or has had its one notice and its one refresh.
  pub record IsValid (s : State) : Type 0 where
    pub posts : All IsPost s.sent
    pub told : length s.sent ≡ length s.pending + length s.notices
    pub fresh : s.refreshes ≡ length s.notices

  Step-IsValid : {s t : State} → Step kind api s t → IsValid s → IsValid t
  Step-IsValid {s} (Step.click ids free) v =
      let (notices, refreshes) = send_all-kept s ids in
      let requests = map (request_for kind api) ids in
      record {
        posts =
            subst (All IsPost) (sym (send_all-sent s ids))
              (All-append IsPost s.sent requests v.posts (All-requests ids));
        told = omega (
          arith,
          ap length (send_all-sent s ids),
          ap length (send_all-pending s ids),
          ap length notices,
          length-append s.sent requests,
          length-append s.pending requests,
          v.told,
        );
        fresh = omega (arith, ap length notices, refreshes, v.fresh);
      }
  Step-IsValid {s} (Step.settled before after r fine h) v =
      unfold settle in
      record {
        posts = v.posts;
        told = omega (
          arith,
          ap length h,
          length-append before (r ∷ after),
          length-append before after,
          v.told,
        );
        fresh = omega (arith, v.fresh);
      }

  Run-IsValid : {s t : State} → IsValid s → Run kind api s t → IsValid t
  Run-IsValid v Run.here = v
  Run-IsValid v (Run.next r step) = Step-IsValid step (Run-IsValid v r)

-- In every state that a bulk button can come to, with its requests ending in any order, each request
-- sent is a POST, and is pending or has had exactly one notice and one refresh of the page; so when none is pending
-- every request has had them.
pub Run-idle-IsValid_bulk :
    (kind : Kind) (api : String) (s : State) → Run kind api idle s → IsValid kind api s
Run-idle-IsValid_bulk kind api s r =
    Run-IsValid kind api (record { posts = tt; told = omega arith; fresh = refl }) r

module _ (kind : Kind) (api : String) where
  send_all-loading :
      (s : State) (ids : List String) → s.loading ≡ true → (send_all kind api s ids).loading ≡ true
  unfolding send_all send
  send_all-loading s [] busy = busy
  send_all-loading s (id ∷ ids) busy = send_all-loading (send kind api s id) ids refl

  clicked-loading :
      (s : State) (a : String) (ids : List String) → (send_all kind api s (a ∷ ids)).loading ≡ true
  unfolding send_all send
  clicked-loading s a ids = send_all-loading (send kind api s a) ids refl

-- Whatever the state of a bulk button, a click with two or more jobs selected disables it. Whatever
-- happens next is that one of the pending requests ends: whichever it is, and whether it succeeds, the
-- button is then enabled again, nothing more was sent, there is one notice more, and some other
-- request is still pending, so that a second click on the same jobs sends to them all once more.
pub enabled_while_pending :
    (kind : Kind) (api : String) (s : State) (a b : String) (ids : List String) (u : State)
    → Step kind api (send_all kind api s (a ∷ b ∷ ids)) u
    → ((send_all kind api s (a ∷ b ∷ ids)).loading ≡ true)
      × (u.loading ≡ false)
      × (0 < length u.pending)
      × (length u.notices ≡ suc (length s.notices))
      × (u.sent ≡ s.sent ++ map (request_for kind api) (a ∷ b ∷ ids))
      × ((send_all kind api u (a ∷ b ∷ ids)).sent
          ≡ u.sent ++ map (request_for kind api) (a ∷ b ∷ ids))
      × Step kind api u (send_all kind api u (a ∷ b ∷ ids))
enabled_while_pending kind api s a b ids u (Step.click again free) =
    let no : true ≡ false = sym (clicked-loading kind api s a (b ∷ ids)) ∙ free in cc no
enabled_while_pending kind api s a b ids u (Step.settled before after r fine h) =
    let chosen = a ∷ b ∷ ids in
    let t = send_all kind api s chosen in
    let u' = settle kind api t (before ++ after) (notice_for kind api fine) in
    (
      clicked-loading kind api s a (b ∷ ids),
      unfold settle in refl,
      unfold settle in
          omega (
            arith,
            ap length h,
            ap length (send_all-pending kind api s chosen),
            length-append s.pending (map (request_for kind api) chosen),
            length-append before (r ∷ after),
            length-append before after,
          ),
      unfold settle in ap (λ ns. suc (length ns)) (send_all-kept kind api s chosen).0,
      unfold settle in send_all-sent kind api s chosen,
      send_all-sent kind api u' chosen,
      Step.click chosen (unfold settle in refl),
    )
