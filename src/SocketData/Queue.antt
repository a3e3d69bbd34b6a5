-- ===== src/SocketData/Queue.antt =====
-- The write queue of libnbuss/SocketData.h as the bytes that it holds, oldest first.
use nonblocking_unix_socket.Base.{
  ℕ, ◌≡◌, sym, ap, ◌∙◌, List, [], ◌∷◌, ◌++◌, append-nil, append_assoc,
}
use nonblocking_unix_socket.SocketData.{WriteItem, push_front}

abbrev pub pending : List WriteItem → List ℕ
pending [] = []
pending (item ∷ q) = item ++ pending q

-- An item at the front of the deque is written after all the others.
pub pending-push_front :
    (item : WriteItem) (q : List WriteItem) → pending (push_front item q) ≡ pending q ++ item
unfolding push_front
pending-push_front item [] = append-nil item
pending-push_front item (x ∷ q) =
    ap (◌++◌ x) (pending-push_front item q) ∙ sym (append_assoc x (pending q) item)
