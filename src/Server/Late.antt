-- ===== src/Server/Late.antt =====
-- A connection of src/core/server.rs whose task starts while `stop` clears the sessions.
use rust_network_system.Base.{
  ℕ, ◌≡◌, refl, ap, ◌∙◌, true, false, ◌&&◌, ◌||◌, not, List, [], ◌∷◌, ◌++◌,
}
use rust_network_system.Server.{
  Task, starting, aborted, abort_all, member, take_tasks, list_session, is_over,
}
use rust_network_system.Server.System.{
  System, at, ready, clearing, takes, lists, cancels_serving, ◌⟶*◌, here, next,
}

abort_all-append :
    (is : List ℕ) (xs ys : List Task) → abort_all is (xs ++ ys) ≡ abort_all is xs ++ abort_all is ys
unfolding abort_all
abort_all-append is [] ys = refl
abort_all-append is (x ∷ xs) ys =
    ap (◌∷◌ (record x { abort = x.abort || (member x.id is && not (is_over x.phase)) }))
      (abort_all-append is xs ys)

abort_all-starting :
    (is : List ℕ) (i : ℕ) (front back : List Task)
    → member i is ≡ true
    → abort_all is (front ++ (at i false starting ∷ back))
      ≡ abort_all is front ++ (at i true starting ∷ abort_all is back)
unfolding abort_all is_over
abort_all-starting is i front back h =
    abort_all-append is front (at i false starting ∷ back)
    ∙ ap (λ b. abort_all is front ++ (at i (b && true) starting ∷ abort_all is back)) h

-- A dead session can stay listed. Let `stop` have cleared the sessions while the task of a connection has run and not
-- yet listed its session, and let the server hold the handle of that task. Then the task can list the session after
-- that and be aborted, and `stop` has returned: no task is left to take the session off the list.
pub late_listing :
    (s : System) (front back : List Task) (i : ℕ)
    → s.control ≡ clearing
    → s.tasks ≡ front ++ (at i false starting ∷ back)
    → member i s.server.session_tasks ≡ true
    → (t : System) × (front' back' : List Task) × (s ⟶* t)
      × (t.control ≡ ready)
      × (t.server.running ≡ false)
      × (t.server.sessions ≡ s.server.sessions ++ (i ∷ []))
      × (t.tasks ≡ front' ++ (at i true aborted ∷ back'))
unfolding take_tasks list_session
late_listing s front back i h e held =
    let is = s.server.session_tasks in
    let told = ap (abort_all is) e ∙ abort_all-starting is i front back held in
    (
      _,
      abort_all is front,
      abort_all is back,
      next
          (next (next here (takes s h))
            (lists _ (abort_all is front) (abort_all is back) i true told))
          (cancels_serving _ (abort_all is front) (abort_all is back) i refl),
      refl,
      refl,
      refl,
      refl,
    )
