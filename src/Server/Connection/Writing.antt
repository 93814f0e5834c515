-- ===== src/Server/Connection/Writing.antt =====
-- The queue of server/src/client_session.cpp: `doWrite`, what `deliver` posts, and `onWrite`.
use clear_space.Prelude.{
  ◌+◌, ◌≤◌, ◌≡◌, refl, sym, ap, ◌∙◌, inl, inr, String, true, false, List, [], ◌∷◌, ◌++◌,
  append_assoc, append-nil, take, Bool-cases, subst,
}
use clear_space.Server.Connection.{
  Connection, Task, push, do_write, write_front, push_line, on_write,
}
use clear_space.Server.Connection.Invariant.{
  lines_of, starts_of, reads_of, closes_of, readers, IsConnection,
}

do_write_stopped : (k : Connection) → k.session.stopped ≡ true → do_write k ≡ k
unfolding do_write
do_write_stopped k s = simp (s)

do_write_running :
    (k : Connection)
    → k.session.stopped ≡ false
    → do_write k ≡ record k { writes = k.writes ++ take 1 k.write_queue }
unfolding do_write
do_write_running k s = simp (s) (go k k.write_queue refl)
  where
    go :
        (k : Connection) (q : List String)
        → k.write_queue ≡ q
        → write_front k q ≡ record k { writes = k.writes ++ take 1 q }
    go k [] e = cc (append-nil k.writes)
    go k (line ∷ q) e = refl

-- A line that the front of an idle queue starts to be written, if the session has not stopped.
do_write-IsConnection :
    (k : Connection)
    → k.writes ≡ []
    → k.delivered ≡ k.written ++ (k.write_queue ++ lines_of k.posted)
    → readers k ≤ 1
    → (k.session.stopped ≡ false → readers k ≡ 1)
    → (k.session.stopped ≡ false → closes_of k.work ≡ 0)
    → IsConnection (do_write k)
do_write-IsConnection k idle order few goes stays = elim (Bool-cases k.session.stopped) [
  | inl s ↦ subst IsConnection (sym (do_write_stopped k s)) (record {
    order = order;
    one_write = inr (idle, s);
    one_read = few;
    goes_on = goes;
    stays_open = stays;
  })
  | inr s ↦ subst IsConnection (sym (do_write_running k s)) (record {
    order = order;
    one_write = inl (ap (λ x. x ++ take 1 k.write_queue) idle);
    one_read = few;
    goes_on = goes;
    stays_open = stays;
  })
]

push_line_idle :
    (k : Connection) (line : String)
    → k.write_queue ≡ []
    → push_line k line ≡ do_write (record k { write_queue = line ∷ [] })
unfolding push_line
push_line_idle k line e = rw (e)

push_line_busy :
    (k : Connection) (line front : String) (q : List String)
    → k.write_queue ≡ front ∷ q
    → push_line k line ≡ record k { write_queue = k.write_queue ++ (line ∷ []) }
unfolding push_line
push_line_busy k line front q e = simp (e)

idle_queue : (k : Connection) → IsConnection k → k.write_queue ≡ [] → k.writes ≡ []
idle_queue k h e = elim h.one_write [ inl w ↦ w ∙ ap (take 1) e | inr (w, s) ↦ w ]

pub push_line-IsConnection :
    (k : Connection) (ts : List Task) (line : String)
    → k.posted ≡ push line ∷ ts
    → IsConnection k
    → IsConnection (push_line (record k { posted = ts }) line)
push_line-IsConnection k ts line p h = go k.write_queue refl
  where
    k' : Connection
    k' = record k { posted = ts }

    order : k.delivered ≡ k.written ++ (k.write_queue ++ (line ∷ lines_of ts))
    order = h.order ∙ ap (λ x. k.written ++ (k.write_queue ++ lines_of x)) p

    same : readers k ≡ readers k'
    same = ap (λ x. k.reads + starts_of x + reads_of k.work) p

    go : (q : List String) → k.write_queue ≡ q → IsConnection (push_line k' line)
    go [] e = subst IsConnection (sym (push_line_idle k' line e)) (
        do_write-IsConnection (record k' { write_queue = line ∷ [] }) (idle_queue k h e)
          (order ∙ ap (λ x. k.written ++ (x ++ (line ∷ lines_of ts))) e)
          (subst (λ x. x ≤ 1) same h.one_read) (λ s. sym same ∙ h.goes_on s) h.stays_open)
    go (front ∷ q) e = subst IsConnection (sym (push_line_busy k' line front q e)) (record {
      order =
          order
          ∙ ap (λ x. k.written ++ x) (sym (append_assoc k.write_queue (line ∷ []) (lines_of ts)));
      one_write = elim h.one_write [
        | inl w ↦ inl (w ∙ ap (take 1) e ∙ sym (ap (λ x. take 1 (x ++ (line ∷ []))) e))
        | inr w ↦ inr w
      ];
      one_read = subst (λ x. x ≤ 1) same h.one_read;
      goes_on = λ s. sym same ∙ h.goes_on s;
      stays_open = h.stays_open;
    })

-- The line of a write under way is the front of the queue, and no other write is under way.
pub writes_front :
    (k : Connection) (line : String) (ls : List String)
    → k.writes ≡ line ∷ ls
    → IsConnection k
    → (ls ≡ []) × ((q : List String) × (k.write_queue ≡ line ∷ q))
writes_front k line ls e h = elim h.one_write [
  | inl w ↦ front k.write_queue line ls refl (sym e ∙ w)
  | inr (w, s) ↦ absurd (cc (w, e))
]
  where
    front :
        (q : List String) (line : String) (ls : List String)
        → k.write_queue ≡ q
        → line ∷ ls ≡ take 1 q
        → (ls ≡ []) × ((q' : List String) × (k.write_queue ≡ line ∷ q'))
    front [] line ls e w = absurd (cc (w))
    front (x ∷ q) line ls e w = (cc (w), (q, cc (w, e)))

on_write_last :
    (k : Connection) (line : String)
    → k.write_queue ≡ line ∷ []
    → on_write k ≡ record k { write_queue = [] }
unfolding on_write
on_write_last k line e = simp (e)

on_write_more :
    (k : Connection) (line next : String) (q : List String)
    → k.write_queue ≡ line ∷ (next ∷ q)
    → on_write k ≡ do_write (record k { write_queue = next ∷ q })
unfolding on_write
on_write_more k line next q e = simp (e)

pub on_write-IsConnection :
    (k : Connection) (line : String) (ls : List String)
    → k.writes ≡ line ∷ ls
    → IsConnection k
    → IsConnection (on_write (record k { writes = ls; written = k.written ++ (line ∷ []) }))
on_write-IsConnection k line ls e h =
    let (single, (q, full)) = writes_front k line ls e h in go single q full
  where
    k' : Connection
    k' = record k { writes = ls; written = k.written ++ (line ∷ []) }

    order :
        (q : List String)
        → k.write_queue ≡ line ∷ q
        → k.delivered ≡ k'.written ++ (q ++ lines_of k.posted)
    order q full =
        h.order
        ∙ ap (λ x. k.written ++ (x ++ lines_of k.posted)) full
        ∙ sym (append_assoc k.written (line ∷ []) (q ++ lines_of k.posted))

    go : ls ≡ [] → (q : List String) → k.write_queue ≡ line ∷ q → IsConnection (on_write k')
    go single [] full = subst IsConnection (sym (on_write_last k' line full)) (record {
      order = order [] full;
      one_write = inl single;
      one_read = h.one_read;
      goes_on = h.goes_on;
      stays_open = h.stays_open;
    })
    go single (next ∷ q) full = subst IsConnection (sym (on_write_more k' line next q full)) (
        do_write-IsConnection (record k' { write_queue = next ∷ q }) single (order (next ∷ q) full)
          h.one_read h.goes_on h.stays_open)
