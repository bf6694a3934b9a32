-- ===== src/Net/Connection/Delivery.antt =====
-- What a flush that has ended leaves, and what may have ended it.
use high_performance_http_se.Common.{ℕ, ◌<◌, ◌≡◌, ◌⊎◌, inl, inr, [], ◌++◌, Bytes, length}
use high_performance_http_se.Net.Sys.{Sys, SendAnswer, sent, failed}
use high_performance_http_se.Net.Connection.{Connection}

module _ (sys : Sys) where
  -- A `send` has refused the rest of the text: it failed, or took no byte.
  abbrev pub GaveUp : ℕ → Bytes → sys.World → Type 0
  GaveUp fd text w' =
      (w : sys.World) × (rest : Bytes) × (0 < length rest)
      × (sys.output w fd ++ rest ≡ text)
      × ((sys.send w fd rest ≡ (failed, w')) ⊎ (sys.send w fd rest ≡ (sent 0, w')))

  -- The text is out and the buffer is cleared, but for a `send` that has refused the rest of it.
  abbrev pub Delivered : ℕ → Bytes → Connection → sys.World → Type 0
  Delivered fd text c w = ((c.write_buffer ≡ []) × (sys.output w fd ≡ text)) ⊎ GaveUp fd text w

  -- A `send` of these bytes would have blocked.
  abbrev pub Blocked : ℕ → Bytes → sys.World → Type 0
  Blocked fd bytes w' = (w : sys.World) × (sys.send w fd bytes ≡ (SendAnswer.would_block, w'))

-- No `send` to the descriptor fails, or takes nothing of some bytes; it may take a part of them, or block.
abbrev pub PeerStays : (sys : Sys) → ℕ → Type 0
PeerStays sys fd =
    (w w' : sys.World) (bytes : Bytes)
    → 0 < length bytes
    → (sys.send w fd bytes ≡ (failed, w')) ⊎ (sys.send w fd bytes ≡ (sent 0, w'))
    → ⊥

pub Delivered-stays :
    (sys : Sys) (fd : ℕ) (text : Bytes) (c : Connection) (w : sys.World)
    → PeerStays sys fd
    → Delivered sys fd text c w
    → sys.output w fd ≡ text
Delivered-stays sys fd text c w stays (inl (cleared, out)) = out
Delivered-stays sys fd text c w' stays (inr (w, rest, some_left, e, refused)) =
    absurd (stays w w' rest some_left refused)
