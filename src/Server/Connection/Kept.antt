-- ===== src/Server/Connection/Kept.antt =====
-- What the functions of server/src/client_session.cpp that read and write leave alone.
use clear_space.Server.Connection.Invariant.{closes_of}
use clear_space.Prelude.{
  ◌≡◌, refl, ap, ◌∙◌, String, List, [], ◌∷◌, ◌++◌, Bool, true, false, suc, if◌then◌else◌, sym,
}
use clear_space.Server.Connection.{
  Work, rest_of, Connection, post, stop_later, do_read_line, do_write, write_front, push_line,
  on_write, done_work, is_empty, pop_front,
}

-- The session, what waits on its strand, what its handler does, and what was delivered.
pub record IsKept (k k' : Connection) : Type 0 where
  pub session : k'.session ≡ k.session
  pub posted : k'.posted ≡ k.posted
  pub work : k'.work ≡ k.work
  pub delivered : k'.delivered ≡ k.delivered

pub stop_later-session : (k : Connection) → (stop_later k).session ≡ k.session
unfolding stop_later post
stop_later-session k = refl

pub stop_later-work : (k : Connection) → (stop_later k).work ≡ k.work
unfolding stop_later post
stop_later-work k = refl

pub done_work-closes :
    (k : Connection) (w : Work) (ws : List Work)
    → k.work ≡ w ∷ ws
    → closes_of (w ∷ ws) ≡ closes_of ws
    → closes_of (done_work k).work ≡ closes_of k.work
unfolding done_work
done_work-closes k w ws e same = ap (λ x. closes_of (rest_of x)) e ∙ sym same ∙ sym (ap closes_of e)

pub done_work-session : (k : Connection) → (done_work k).session ≡ k.session
unfolding done_work
done_work-session k = refl

same-IsKept : (k : Connection) → IsKept k k
same-IsKept k = record { session = refl; posted = refl; work = refl; delivered = refl }

-- Both branches of a test.
if-IsKept :
    (b : Bool) (k k' k'' : Connection)
    → IsKept k k'
    → IsKept k k''
    → IsKept k (if b then k' else k'')
if-IsKept true k k' k'' i j = i
if-IsKept false k k' k'' i j = j

pub do_read_line-IsKept : (k : Connection) → IsKept k (do_read_line k)
unfolding do_read_line
do_read_line-IsKept k =
    if-IsKept k.session.stopped k k (record k { reads = suc k.reads }) (same-IsKept k)
      (record { session = refl; posted = refl; work = refl; delivered = refl })

write_front-IsKept : (k : Connection) (q : List String) → IsKept k (write_front k q)
write_front-IsKept k [] = same-IsKept k
write_front-IsKept k (line ∷ q) = record {
  session = refl;
  posted = refl;
  work = refl;
  delivered = refl;
}

do_write-IsKept : (k : Connection) → IsKept k (do_write k)
unfolding do_write
do_write-IsKept k =
    if-IsKept k.session.stopped k k (write_front k k.write_queue) (same-IsKept k)
      (write_front-IsKept k k.write_queue)

-- A connection with another queue.
queue-IsKept : (k : Connection) (q : List String) → IsKept k (record k { write_queue = q })
queue-IsKept k q = record { session = refl; posted = refl; work = refl; delivered = refl }

written-IsKept :
    (k : Connection) (q : List String) → IsKept k (do_write (record k { write_queue = q }))
written-IsKept k q =
    let i = do_write-IsKept (record k { write_queue = q }) in
    record { session = i.session; posted = i.posted; work = i.work; delivered = i.delivered }

pub push_line-IsKept : (k : Connection) (line : String) → IsKept k (push_line k line)
unfolding push_line
push_line-IsKept k line =
    let q = k.write_queue ++ (line ∷ []) in
    if-IsKept (is_empty k.write_queue) k (do_write (record k { write_queue = q }))
      (record k { write_queue = q }) (written-IsKept k q) (queue-IsKept k q)

pub on_write-IsKept : (k : Connection) → IsKept k (on_write k)
unfolding on_write
on_write-IsKept k =
    let q = pop_front k.write_queue in
    if-IsKept (is_empty q) k (record k { write_queue = q })
      (do_write (record k { write_queue = q })) (queue-IsKept k q) (written-IsKept k q)

write_front-queue :
    (k : Connection) (q : List String) → (write_front k q).write_queue ≡ k.write_queue
write_front-queue k [] = refl
write_front-queue k (line ∷ q) = refl

if-queue :
    (b : Bool) (k k' : Connection) (q : List String)
    → k.write_queue ≡ q
    → k'.write_queue ≡ q
    → (if b then k else k').write_queue ≡ q
if-queue true k k' q i j = i
if-queue false k k' q i j = j

pub on_write-queue : (k : Connection) → (on_write k).write_queue ≡ pop_front k.write_queue
unfolding on_write do_write
on_write-queue k =
    let q = pop_front k.write_queue in
    let k' = record k { write_queue = q } in
    if-queue (is_empty q) k' (do_write k') q refl
      (if-queue k.session.stopped k' (write_front k' q) q refl (write_front-queue k' q))
