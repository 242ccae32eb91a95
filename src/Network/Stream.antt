-- ===== src/Network/Stream.antt =====
-- The loops of CGNet::send_all and CGNet::recv_all, which finish short writes and short reads.
use rf_class_groups.Base.{
  ℕ, zero, suc, ◌+◌, ◌≤◌, ◌≡◌, ◌∙◌, List, [], ◌∷◌, ◌++◌, length, take, drop, take-append-drop,
  length-drop, Result, ok, err, ok_injective, sym, arith, length-take,
}
use rf_class_groups.Base.{min, ◌-◌, length-append, write_failed, read_failed, out_of_fuel}
use mathlib.Core.List.{append-nil, append_assoc}

-- What one `send` or `read` returns: an interrupt (`EINTR`), a failure or the end of the stream, or
-- a positive number of bytes, `moved n` for `n + 1` of them.
pub data Outcome : Type 0 where
  interrupted failed : Outcome
  moved : ℕ → Outcome

-- `while (len > 0) { ... }`, over the outcomes that the kernel will give; `out_of_fuel` means that
-- they end while the loop still waits. The result is what went out, in order.
unfoldable pub send_loop : List Outcome → List ℕ → List ℕ → Result (List ℕ)
send_loop os [] sent = ok sent
send_loop [] (b ∷ bs) sent = err out_of_fuel
send_loop (interrupted ∷ os) (b ∷ bs) sent = send_loop os (b ∷ bs) sent
send_loop (failed ∷ os) (b ∷ bs) sent = err write_failed
send_loop (moved n ∷ os) (b ∷ bs) sent = send_loop os (drop n bs) (sent ++ (b ∷ take n bs))

-- How many of the outcomes moved something; `none` of them failed.
pub data Delivers : List Outcome → ℕ → Type 0 where
  done : (os : List Outcome) → Delivers os 0
  again : {os : List Outcome} {k : ℕ} → Delivers os k → Delivers (interrupted ∷ os) k
  step : {os : List Outcome} {k : ℕ} (n : ℕ) → Delivers os k → Delivers (moved n ∷ os) (suc k)

-- Whatever the short writes and interrupts, if the send loop returns it has sent the buffer, once, in
-- order.
pub send_loop_exact :
    (os : List Outcome) (buf sent out : List ℕ) → send_loop os buf sent ≡ ok out → out ≡ sent ++ buf
unfolding send_loop
send_loop_exact os [] sent out h = ok_injective (sym h) ∙ sym (append-nil sent)
send_loop_exact [] (b ∷ bs) sent out h = cc
send_loop_exact (interrupted ∷ os) (b ∷ bs) sent out h = send_loop_exact os (b ∷ bs) sent out h
send_loop_exact (failed ∷ os) (b ∷ bs) sent out h = cc
send_loop_exact (moved n ∷ os) (b ∷ bs) sent out h =
    send_loop_exact os (drop n bs) (sent ++ (b ∷ take n bs)) out h
    ∙ rw (append_assoc, take-append-drop n bs)

-- If the calls do not fail and at least as many of them move something as there are bytes, the send
-- loop ends, with every byte sent in order.
pub send_loop_ends :
    (os : List Outcome) (k : ℕ) (buf sent : List ℕ)
    → Delivers os k
    → length buf ≤ k
    → send_loop os buf sent ≡ ok (sent ++ buf)
unfolding send_loop
send_loop_ends os k [] sent d h = rw append-nil
send_loop_ends _ _ (b ∷ bs) sent (done os) h = absurd (omega arith)
send_loop_ends _ k (b ∷ bs) sent (again d) h = send_loop_ends _ k (b ∷ bs) sent d h
send_loop_ends _ _ (b ∷ bs) sent (step {k = k} n d) h =
    send_loop_ends _ k (drop n bs) (sent ++ (b ∷ take n bs)) d (omega (arith, length-drop n bs))
    ∙ rw (append_assoc, take-append-drop n bs)

-- The loop of `recv_all`: what `read` moves out of the stream is appended to the buffer until `len`
-- bytes are there. The stream is what the peer has written; a read gives at most what is there.
unfoldable pub recv_loop : List Outcome → ℕ → List ℕ → List ℕ → Result (List ℕ × List ℕ)
recv_loop os zero got stream = ok (got, stream)
recv_loop [] (suc len) got stream = err out_of_fuel
recv_loop (interrupted ∷ os) (suc len) got stream = recv_loop os (suc len) got stream
recv_loop (failed ∷ os) (suc len) got stream = err read_failed
recv_loop (moved n ∷ os) (suc len) got [] = err read_failed
recv_loop (moved n ∷ os) (suc len) got (b ∷ stream) =
    recv_loop os (len - length (take (min n len) stream)) (got ++ (b ∷ take (min n len) stream))
      (drop (min n len) stream)

-- If the receive loop returns, it has taken exactly `len` bytes off the front of the stream, in order.
pub recv_loop_exact :
    (os : List Outcome) (len : ℕ) (got stream out rest : List ℕ)
    → recv_loop os len got stream ≡ ok (out, rest)
    → (got ++ stream ≡ out ++ rest) × (length out ≡ length got + len)
unfolding recv_loop
recv_loop_exact os zero got stream out rest h = ground (arith)
recv_loop_exact [] (suc len) got stream out rest h = cc
recv_loop_exact (interrupted ∷ os) (suc len) got stream out rest h =
    recv_loop_exact os (suc len) got stream out rest h
recv_loop_exact (failed ∷ os) (suc len) got stream out rest h = cc
recv_loop_exact (moved n ∷ os) (suc len) got [] out rest h = cc
recv_loop_exact (moved n ∷ os) (suc len) got (b ∷ stream) out rest h =
    let taken = take (min n len) stream in
    let (e, l) =
      recv_loop_exact os (len - length taken) (got ++ (b ∷ taken)) (drop (min n len) stream) out
        rest h in
    (
      rw (append_assoc, take-append-drop (min n len) stream) at e,
      omega (arith, length-append got (b ∷ taken), length-take (min n len) stream),
    )
