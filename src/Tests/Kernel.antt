-- ===== src/Tests/Kernel.antt =====
-- A small kernel: it takes one byte at each `send`, and `recv` answers the listed reads.
use high_performance_http_se.Common.{
  ℕ, inl, inr, ◌≤◌, ◌≡◌, refl, sym, true, false, List, [], ◌∷◌, ◌++◌, some, Bytes, length, take,
  arith, append-nil,
}
use high_performance_http_se.Net.Connection.Delivery.{PeerStays}
use high_performance_http_se.Net.Sys.{
  Sys, SendLaws, RecvLaws, SendAnswer, sent, RecvAnswer, received, closed,
}

pub record World : Type 0 where
  pub out : Bytes
  pub reads : List (ℕ × Bytes)

abbrev pub send_byte : World → ℕ → Bytes → SendAnswer × World
send_byte w fd [] = (sent 0, w)
send_byte w fd (b ∷ bytes) = (sent 1, record w { out = w.out ++ b ∷ [] })

abbrev next_read : World → List (ℕ × Bytes) → RecvAnswer × World
next_read w [] = (closed, w)
next_read w ((b, bytes) ∷ reads) = (received b bytes, record w { reads = reads })

abbrev pub kernel : Sys
kernel = record {
  World = World;
  socket = λ w. (some 9, w);
  Address = Unit {0};
  parse_address = λ host. some tt;
  zero_address = tt;
  connect = λ w fd address port. (true, w);
  send = send_byte;
  recv = λ w fd capacity. next_read w w.reads;
  close = λ w fd. w;
  output = λ w fd. w.out;
  hang_up_unasked = false;
}

takes_part :
    (w : World) (fd n : ℕ) (bytes : Bytes) (w' : World)
    → send_byte w fd bytes ≡ (sent n, w')
    → (n ≤ length bytes) × (w'.out ≡ w.out ++ take n bytes)
takes_part w fd n [] w' e =
    let none_sent : 0 ≡ n = cc in
    let same : w ≡ w' = cc in rw (← none_sent, ← same) (omega arith, sym (append-nil w.out))
takes_part w fd n (b ∷ bytes) w' e =
    let one_sent : 1 ≡ n = cc in
    let grown : record w { out = w.out ++ b ∷ [] } ≡ w' = cc in
    rw (← one_sent, ← grown) (omega arith, refl)

takes_none :
    (w : World) (fd : ℕ) (bytes : Bytes) (w' : World)
    → send_byte w fd bytes ≡ (SendAnswer.would_block, w')
    → w'.out ≡ w.out
takes_none w fd [] w' e = cc
takes_none w fd (b ∷ bytes) w' e = cc

pub kernel_laws : SendLaws kernel
kernel_laws = record { takes_part = takes_part; takes_none = takes_none }

pub kernel_recv_laws : RecvLaws kernel
kernel_recv_laws = record { sends_nothing = λ w fd capacity other. quiet w w.reads }
  where
    quiet : (w : World) (reads : List (ℕ × Bytes)) → (next_read w reads).1.out ≡ w.out
    quiet w [] = refl
    quiet w ((b, bytes) ∷ reads) = refl

pub kernel_stays : (fd : ℕ) → PeerStays kernel fd
kernel_stays fd w w' [] some_left refused = absurd (omega arith)
kernel_stays fd w w' (b ∷ bytes) some_left (inl fails) = cc
kernel_stays fd w w' (b ∷ bytes) some_left (inr empty) =
    let one : ℕ = 1 in let none : one ≡ 0 = cc in absurd (omega (arith, none))
