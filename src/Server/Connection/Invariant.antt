-- ===== src/Server/Connection/Invariant.antt =====
-- What holds of a session of server/src/client_session.cpp between two functions on its strand.
use clear_space.Prelude.{
  ◌∙◌, ℕ, suc, ◌+◌, ◌≤◌, ◌≡◌, refl, sym, ap, ◌∙◌, ◌⊎◌, inl, String, true, false, List, [], ◌∷◌,
  ◌++◌, map, append_assoc, append-nil, arith, take,
}
use clear_space.Core.ServerCore.{SavePiece}
use clear_space.Server.Session.{Handled, Send}
use clear_space.Server.Connection.{
  Connection, Task, start_reading, push, stop, Work, save, send, close, read_on, new_connection,
  start, post, deliver, stop_later, rest_of,
}

-- The lines that are posted and not yet in the queue.
abbrev pub lines_of : List Task → List String
lines_of [] = []
lines_of (start_reading ∷ ts) = lines_of ts
lines_of (push line ∷ ts) = line ∷ lines_of ts
lines_of (stop ∷ ts) = lines_of ts

-- How often a read is still to be started, by a posted function and by the running handler.
abbrev pub starts_of : List Task → ℕ
starts_of [] = 0
starts_of (start_reading ∷ ts) = suc (starts_of ts)
starts_of (push line ∷ ts) = starts_of ts
starts_of (stop ∷ ts) = starts_of ts

abbrev pub reads_of : List Work → ℕ
reads_of [] = 0
reads_of (save p ∷ ws) = reads_of ws
reads_of (send s ∷ ws) = reads_of ws
reads_of (close ∷ ws) = reads_of ws
reads_of (read_on ∷ ws) = suc (reads_of ws)

-- How often the running handler is still to close the socket.
abbrev pub closes_of : List Work → ℕ
closes_of [] = 0
closes_of (save p ∷ ws) = closes_of ws
closes_of (send s ∷ ws) = closes_of ws
closes_of (close ∷ ws) = suc (closes_of ws)
closes_of (read_on ∷ ws) = closes_of ws

abbrev pub readers : Connection → ℕ
readers k = k.reads + starts_of k.posted + reads_of k.work

-- Lines are written in the order in which they were delivered; at most one write is under way, and it is
-- of the front of the queue; so is at most one read. A session that has not stopped writes as long as it
-- has lines, goes on reading, and is not closed.
pub record IsConnection (k : Connection) : Type 0 where
  pub order : k.delivered ≡ k.written ++ (k.write_queue ++ lines_of k.posted)
  pub one_write : (k.writes ≡ take 1 k.write_queue) ⊎ ((k.writes ≡ []) × (k.session.stopped ≡ true))
  pub one_read : readers k ≤ 1
  pub goes_on : k.session.stopped ≡ false → readers k ≡ 1
  pub stays_open : k.session.stopped ≡ false → closes_of k.work ≡ 0

pub lines_of-append : (ts us : List Task) → lines_of (ts ++ us) ≡ lines_of ts ++ lines_of us
lines_of-append [] us = refl
lines_of-append (start_reading ∷ ts) us = lines_of-append ts us
lines_of-append (push line ∷ ts) us = ap (λ x. line ∷ x) (lines_of-append ts us)
lines_of-append (stop ∷ ts) us = lines_of-append ts us

pub starts_of-append : (ts us : List Task) → starts_of (ts ++ us) ≡ starts_of ts + starts_of us
starts_of-append [] us = omega arith
starts_of-append (start_reading ∷ ts) us = omega (arith, starts_of-append ts us)
starts_of-append (push line ∷ ts) us = starts_of-append ts us
starts_of-append (stop ∷ ts) us = starts_of-append ts us

pub reads_of-saves :
    (ps : List SavePiece) (rest : List Work) → reads_of (map save ps ++ rest) ≡ reads_of rest
reads_of-saves [] rest = refl
reads_of-saves (p ∷ ps) rest = reads_of-saves ps rest

pub reads_of-sends :
    (ss : List Send) (rest : List Work) → reads_of (map send ss ++ rest) ≡ reads_of rest
reads_of-sends [] rest = refl
reads_of-sends (s ∷ ss) rest = reads_of-sends ss rest

pub reads_of-handled :
    (h : Handled) (rest : List Work)
    → reads_of (map save h.saves ++ (map send h.sends ++ rest)) ≡ reads_of rest
reads_of-handled h rest =
    reads_of-saves h.saves (map send h.sends ++ rest) ∙ reads_of-sends h.sends rest

pub closes_of-saves :
    (ps : List SavePiece) (rest : List Work) → closes_of (map save ps ++ rest) ≡ closes_of rest
closes_of-saves [] rest = refl
closes_of-saves (p ∷ ps) rest = closes_of-saves ps rest

pub closes_of-sends :
    (ss : List Send) (rest : List Work) → closes_of (map send ss ++ rest) ≡ closes_of rest
closes_of-sends [] rest = refl
closes_of-sends (s ∷ ss) rest = closes_of-sends ss rest

pub closes_of-handled :
    (h : Handled) (rest : List Work)
    → closes_of (map save h.saves ++ (map send h.sends ++ rest)) ≡ closes_of rest
closes_of-handled h rest =
    closes_of-saves h.saves (map send h.sends ++ rest) ∙ closes_of-sends h.sends rest

pub closes_of-rest : (ws : List Work) → closes_of ws ≡ 0 → closes_of (rest_of ws) ≡ 0
closes_of-rest [] e = refl
closes_of-rest (save p ∷ ws) e = e
closes_of-rest (send s ∷ ws) e = e
closes_of-rest (close ∷ ws) e = absurd (omega (arith, e))
closes_of-rest (read_on ∷ ws) e = e

pub start-IsConnection : (id : ℕ) → IsConnection (start (new_connection id))
unfolding start new_connection
start-IsConnection id = record {
  order = refl;
  one_write = inl refl;
  one_read = omega arith;
  goes_on = λ s. refl;
  stays_open = λ s. refl;
}

pub deliver-IsConnection :
    (k : Connection) (line : String) → IsConnection k → IsConnection (deliver k line)
unfolding deliver post
deliver-IsConnection k line h = record {
  order =
      ap (λ x. x ++ (line ∷ [])) h.order
      ∙ append_assoc k.written (k.write_queue ++ lines_of k.posted) (line ∷ [])
      ∙ ap (λ x. k.written ++ x)
          (append_assoc k.write_queue (lines_of k.posted) (line ∷ [])
            ∙ ap (λ x. k.write_queue ++ x) (sym (lines_of-append k.posted (push line ∷ []))));
  one_write = h.one_write;
  one_read = omega (arith, h.one_read, starts_of-append k.posted (push line ∷ []));
  goes_on = λ s. omega (arith, h.goes_on s, starts_of-append k.posted (push line ∷ []));
  stays_open = h.stays_open;
}

pub stop_later-IsConnection : (k : Connection) → IsConnection k → IsConnection (stop_later k)
unfolding stop_later post
stop_later-IsConnection k h = record {
  order =
      h.order
      ∙ ap (λ x. k.written ++ (k.write_queue ++ x))
          (sym (append-nil (lines_of k.posted)) ∙ sym (lines_of-append k.posted (stop ∷ [])));
  one_write = h.one_write;
  one_read = omega (arith, h.one_read, starts_of-append k.posted (stop ∷ []));
  goes_on = λ s. omega (arith, h.goes_on s, starts_of-append k.posted (stop ∷ []));
  stays_open = h.stays_open;
}
