-- ===== src/Server/Connection/Handling.antt =====
-- The handlers of server/src/client_session.cpp, and the pieces of their work.
use clear_space.Prelude.{
  ℕ, suc, ◌+◌, ◌≤◌, ◌≡◌, refl, sym, ap, ◌∙◌, ◌⊎◌, inl, inr, true, List, [], ◌∷◌, ◌++◌, map, arith,
  take, Bool-cases, subst,
}
use clear_space.Core.ServerCore.{SavePiece}
use clear_space.Server.Session.{Session, Handled}
use clear_space.Server.Connection.{
  Connection, Work, save, send, saves_on, read_on, begin_work, closing, done_work, rest_of,
}
use clear_space.Server.Connection.Invariant.{
  lines_of, starts_of, reads_of, readers, IsConnection, reads_of-saves, closes_of-saves,
  reads_of-handled, closes_of-handled, closes_of, closes_of-rest,
}

-- A handled line is followed by the next read.
pub line-IsConnection :
    (k : Connection) (r : ℕ) (done : Handled)
    → k.reads ≡ suc r
    → k.work ≡ []
    → done.session.stopped ≡ k.session.stopped
    → IsConnection k
    → IsConnection (begin_work (record k { reads = r }) done (read_on ∷ []))
unfolding begin_work
line-IsConnection k r done e free same h =
    let counted : r
          + starts_of k.posted
          + reads_of (map save done.saves ++ (map send done.sends ++ (read_on ∷ [])))
        ≡ readers k =
      omega (arith, e, reads_of-handled done (read_on ∷ []), ap reads_of free) in
    record {
      order = h.order;
      one_write = elim h.one_write [ inl w ↦ inl w | inr (w, s) ↦ inr (w, same ∙ s) ];
      one_read = subst (λ x. x ≤ 1) (sym counted) h.one_read;
      goes_on = λ s. counted ∙ h.goes_on (sym same ∙ s);
      stays_open = λ s. closes_of-handled done (read_on ∷ []);
    }

reads_of-closing : (s : Session) → reads_of (closing s) ≡ 0
reads_of-closing s = elim (Bool-cases s.stopped) [ inl e ↦ rw (e) refl | inr e ↦ rw (e) refl ]

-- A session that stops.
pub stopping-IsConnection :
    (k : Connection) (done : Handled)
    → k.delivered ≡ k.written ++ (k.write_queue ++ lines_of k.posted)
    → (k.writes ≡ take 1 k.write_queue) ⊎ (k.writes ≡ [])
    → readers k ≤ 1
    → k.work ≡ []
    → done.session.stopped ≡ true
    → IsConnection (begin_work k done (closing k.session))
unfolding begin_work
stopping-IsConnection k done order writing few free stopped = record {
  order = order;
  one_write = elim writing [ inl w ↦ inl w | inr w ↦ inr (w, stopped) ];
  one_read = omega (
    arith,
    few,
    ap reads_of free,
    reads_of-handled done (closing k.session),
    reads_of-closing k.session,
  );
  goes_on = λ s. absurd (cc (s, stopped));
  stays_open = λ s. absurd (cc (s, stopped));
}

-- A handler's pieces of work.
pub done_work-IsConnection :
    (k : Connection) (w : Work) (ws : List Work)
    → k.work ≡ w ∷ ws
    → reads_of (w ∷ ws) ≡ reads_of ws
    → IsConnection k
    → IsConnection (done_work k)
unfolding done_work
done_work-IsConnection k w ws e none h =
    let same : readers (done_work k) ≡ readers k =
      ap (λ x. k.reads + starts_of k.posted + reads_of (rest_of x)) e
      ∙ ap (λ x. k.reads + starts_of k.posted + x) (sym none ∙ sym (ap reads_of e)) in
    record {
      order = h.order;
      one_write = h.one_write;
      one_read = subst (λ x. x ≤ 1) (sym same) h.one_read;
      goes_on = λ s. same ∙ h.goes_on s;
      stays_open = λ s. closes_of-rest k.work (h.stays_open s);
    }

-- A piece of a call of the core, which may leave more of them.
pub saves_on-closes :
    (k : Connection) (p : SavePiece) (ws : List Work) (more : List SavePiece)
    → k.work ≡ save p ∷ ws
    → closes_of (saves_on k more).work ≡ closes_of k.work
unfolding saves_on
saves_on-closes k p ws more e =
    closes_of-saves more (rest_of k.work) ∙ ap (λ x. closes_of (rest_of x)) e ∙ sym (ap closes_of e)

pub saves_on-IsConnection :
    (k : Connection) (p : SavePiece) (ws : List Work) (more : List SavePiece)
    → k.work ≡ save p ∷ ws
    → IsConnection k
    → IsConnection (saves_on k more)
unfolding saves_on
saves_on-IsConnection k p ws more e h =
    let kept : reads_of (map save more ++ rest_of k.work) ≡ reads_of k.work =
      reads_of-saves more (rest_of k.work)
      ∙ ap (λ x. reads_of (rest_of x)) e
      ∙ sym (ap reads_of e) in
    let same = ap (λ x. k.reads + starts_of k.posted + x) kept in
    record {
      order = h.order;
      one_write = h.one_write;
      one_read = subst (λ x. x ≤ 1) (sym same) h.one_read;
      goes_on = λ s. same ∙ h.goes_on s;
      stays_open = λ s. saves_on-closes k p ws more e ∙ h.stays_open s;
    }
