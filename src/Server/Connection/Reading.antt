-- ===== src/Server/Connection/Reading.antt =====
-- `doReadLine` of server/src/client_session.cpp, where a session starts and behind each line.
use clear_space.Prelude.{
  suc, ◌+◌, ◌≤◌, ◌≡◌, sym, ap, ◌∙◌, inl, inr, true, false, List, ◌∷◌, ◌++◌, arith, Bool-cases,
  subst,
}
use clear_space.Server.Connection.{
  Connection, Task, start_reading, Work, read_on, do_read_line, done_work, rest_of,
}
use clear_space.Server.Connection.Invariant.{
  lines_of, starts_of, reads_of, IsConnection, closes_of-rest,
}

do_read_line_stopped : (k : Connection) → k.session.stopped ≡ true → do_read_line k ≡ k
unfolding do_read_line
do_read_line_stopped k s = rw (s)

do_read_line_running :
    (k : Connection) → k.session.stopped ≡ false → do_read_line k ≡ record k { reads = suc k.reads }
unfolding do_read_line
do_read_line_running k s = simp (s)

-- The three functions that `posted` holds, without their first one.
pub start_reading-IsConnection :
    (k : Connection) (ts : List Task)
    → k.posted ≡ start_reading ∷ ts
    → IsConnection k
    → IsConnection (do_read_line (record k { posted = ts }))
start_reading-IsConnection k ts e h =
    let few : k.reads + suc (starts_of ts) + reads_of k.work ≤ 1 =
      subst (λ x. k.reads + starts_of x + reads_of k.work ≤ 1) e h.one_read in
    let order = h.order ∙ ap (λ x. k.written ++ (k.write_queue ++ lines_of x)) e in
    let k' = record k { posted = ts } in
    elim (Bool-cases k.session.stopped) [
      | inl s ↦ subst IsConnection (sym (do_read_line_stopped k' s)) (record {
        order = order;
        one_write = h.one_write;
        one_read = omega (arith, few);
        goes_on = λ n. absurd (cc (n, s));
        stays_open = h.stays_open;
      })
      | inr s ↦ subst IsConnection (sym (do_read_line_running k' s)) (record {
        order = order;
        one_write = h.one_write;
        one_read = omega (arith, few);
        goes_on = λ n. omega (arith, few);
        stays_open = h.stays_open;
      })
    ]

pub read_on-IsConnection :
    (k : Connection) (ws : List Work)
    → k.work ≡ read_on ∷ ws
    → IsConnection k
    → IsConnection (done_work (do_read_line k))
unfolding done_work
read_on-IsConnection k ws e h =
    let few : k.reads + starts_of k.posted + suc (reads_of ws) ≤ 1 =
      subst (λ x. k.reads + starts_of k.posted + reads_of x ≤ 1) e h.one_read in
    let left = ap (λ x. reads_of (rest_of x)) e in
    elim (Bool-cases k.session.stopped) [
      | inl s ↦
          subst (λ x. IsConnection (done_work x)) (sym (do_read_line_stopped k s))
            (record {
              order = h.order;
              one_write = h.one_write;
              one_read = omega (arith, few, left);
              goes_on = λ n. absurd (cc (n, s));
              stays_open = λ s. closes_of-rest k.work (h.stays_open s);
            })
      | inr s ↦
          subst (λ x. IsConnection (done_work x)) (sym (do_read_line_running k s))
            (record {
              order = h.order;
              one_write = h.one_write;
              one_read = omega (arith, few, left);
              goes_on = λ n. omega (arith, few, left);
              stays_open = λ s. closes_of-rest k.work (h.stays_open s);
            })
    ]
