-- ===== src/Client/Reading.antt =====
-- `read_memory` of `shared/python/simrt_xcp/client.py` against the memory of the slave.
use sim_rt.Prelude.{
  ℕ, zero, suc, ◌+◌, ◌-◌, ◌≤◌, ◌<◌, ◌≡◌, refl, ap, ◌∙◌, inl, inr, Bool-cases, true, List, [], ◌++◌,
  arith, ◌==◌, min, length, append-nil, append_assoc,
}
use sim_rt.Prelude.Int.{ℤ, pos}
use sim_rt.Exec.{ok, >>=-ok, Keeps}
use sim_rt.Transport.{PyxcpConfig}
use sim_rt.Transport.Master.{Master}
use sim_rt.Client.{Client, connected, upload_chunk, upload_loop, upload_all, read_memory}
use sim_rt.Client.Keeping.{read_memory-Keeps}
use sim_rt.Client.Memory.{Truthful, Responsive, Serves, bytes_at, bytes_at-append}

module _ (m : Master PyxcpConfig) (d : Truthful m) where
  -- The `n` bytes from the MTA on.
  abbrev at_mta : m.World → ℕ → List ℕ
  at_mta w n = bytes_at (d.mem w (d.mta_extension w)) (d.mta w) n

  upload_chunk-reads :
      (n : ℕ) (c : Client m) (chunk : List ℕ)
      → (upload_chunk m n c).0 ≡ ok chunk
      → ((m.upload n c.world).0 ≡ ok chunk)
        × (length chunk ≡ n)
        × ((upload_chunk m n c).1.world ≡ (m.upload n c.world).1)
  unfolding upload_chunk
  upload_chunk-reads n c chunk h = ground arith

  -- What an UPLOAD returns, and what follows the MTA after it, lie side by side.
  upload_at_mta :
      (n k : ℕ) (c : Client m) (chunk : List ℕ)
      → (upload_chunk m n c).0 ≡ ok chunk
      → chunk ++ at_mta (upload_chunk m n c).1.world k ≡ at_mta c.world (n + k)
  upload_at_mta n k c chunk h =
      let (got, size, same) = upload_chunk-reads n c chunk h in
      let (read, moved, kept) = d.upload_reads n c.world chunk got in
      rw (same, d.mem-upload n c.world, moved, kept, ← size)
        (let e : chunk
                ++ bytes_at (d.mem c.world (d.mta_extension c.world)) (d.mta c.world + length chunk)
                    k
              ≡ bytes_at (d.mem c.world (d.mta_extension c.world)) (d.mta c.world) (length chunk)
                ++ bytes_at (d.mem c.world (d.mta_extension c.world)) (d.mta c.world + length chunk)
                    k =
            ap
              (λ l.
                l
                ++ bytes_at (d.mem c.world (d.mta_extension c.world)) (d.mta c.world + length chunk)
                    k)
              read in
          e ∙ bytes_at-append _ _ (length chunk) k)

  -- The loop returns what it has got with the bytes that follow the MTA.
  upload_loop-reads :
      (fuel remaining max_chunk : ℕ) (result : List ℕ) (c : Client m) (bs : List ℕ)
      → remaining ≤ fuel
      → 1 ≤ max_chunk
      → (upload_loop m fuel remaining max_chunk result c).0 ≡ ok bs
      → bs ≡ result ++ at_mta c.world remaining
  unfolding upload_loop
  upload_loop-reads zero remaining max_chunk result c bs enough chunk h =
      let e : remaining ≡ 0 = omega arith in rw e (cc (append-nil result))
  upload_loop-reads (suc fuel) remaining max_chunk result c bs enough chunk h =
      elim (Bool-cases (remaining == 0)) [
        | inl done ↦
            let e : remaining ≡ 0 = ground arith in rw e (ground (arith, append-nil result))
        | inr more ↦
            let k = min remaining max_chunk in
            let (got, chunk_ok, rest, _) =
              >>=-ok (upload_chunk m k)
                (λ l. upload_loop m fuel (remaining - k) max_chunk (result ++ l)) c
                (rw (more, upload_loop) at h) in
            let ih =
              upload_loop-reads fuel (remaining - k) max_chunk (result ++ got)
                (upload_chunk m k c).1 bs (ground arith) chunk rest in
            let all : got ++ at_mta (upload_chunk m k c).1.world (remaining - k)
                ≡ at_mta c.world (k + (remaining - k)) =
              upload_at_mta k (remaining - k) c got chunk_ok in
            let e : k + (remaining - k) ≡ remaining = omega arith in
            ih ∙ append_assoc result got _ ∙ ap (λ l. result ++ l) (rw e at all)
      ]

  upload_all-reads :
      (a n e : ℕ) (c : Client m) (bs : List ℕ)
      → (upload_all m a n e c).0 ≡ ok bs
      → bs ≡ bytes_at (d.mem c.world e) a n
  unfolding upload_all
  upload_all-reads a n e c bs h =
      let c' : Client m = record c { world = (m.set_mta a e c.world).1 } in
      let k = min 0xFF (m.max_cto c.world - 1) in
      ground (
        arith,
        d.mem-set_mta a e c.world,
        d.set_mta_moves a e c.world,
        upload_loop-reads n n k [] c' bs,
      )

  pub mem-read_memory :
      (a n e : ℤ) (c : Client m) → d.mem (read_memory m a n e c).1.world ≡ d.mem c.world
  mem-read_memory a n e c =
      (read_memory-Keeps m (λ c'. d.mem c'.world ≡ d.mem c.world)
          (λ a e c' h. d.mem-set_mta a e c'.world ∙ h) (λ n c' h. d.mem-upload n c'.world ∙ h) a n
          e).at
        c refl

  -- Where a successful UPLOAD returns the bytes at the MTA: what is read is what the slave holds at
  -- the span.
  pub read_memory-reads :
      (a n e : ℕ) (c : Client m) (bs : List ℕ)
      → (read_memory m (pos a) (pos n) (pos e) c).0 ≡ ok bs
      → bs ≡ bytes_at (d.mem c.world e) a n
  unfolding read_memory
  read_memory-reads a zero e c bs h = ground arith
  read_memory-reads a (suc n) e c bs h = ground (arith, upload_all-reads a (suc n) e c bs)

-- Progress: a slave that answers every command that fits its MAX_CTO.
module _ (m : Master PyxcpConfig) {cto : ℕ} (r : Responsive m cto) where
  -- a connected client over a slave that serves it
  abbrev pub Answers : Client m → Type 0
  Answers c = (connected m c ≡ true) × Serves m c.world cto

  upload_loop-ok :
      (fuel remaining max_chunk : ℕ) (result : List ℕ) (c : Client m)
      → 1 ≤ max_chunk
      → max_chunk < cto
      → max_chunk ≤ 255
      → Serves m c.world cto
      → (bs : List ℕ) × ((upload_loop m fuel remaining max_chunk result c).0 ≡ ok bs)
  unfolding upload_loop upload_chunk
  upload_loop-ok zero remaining max_chunk result c low fits byte s = (result, refl)
  upload_loop-ok (suc fuel) remaining max_chunk result c low fits byte s =
      elim (Bool-cases (remaining == 0)) [
        | inl done ↦ (result, ground arith)
        | inr more ↦
            let k = min remaining max_chunk in
            let (chunk, got, size) =
              r.upload_ok k c.world s (ground arith) (omega arith) (omega arith) in
            let c' : Client m = record c { world = (m.upload k c.world).1 } in
            let (bs, rest) =
              upload_loop-ok fuel (remaining - k) max_chunk (result ++ chunk) c' low fits byte
                (r.upload_serves k c.world s) in
            (bs, ground arith)
      ]

  -- Reading leaves the client connected, and the slave answering.
  pub read_memory-Answers : (a n e : ℤ) → Keeps Answers (read_memory m a n e)
  unfolding connected
  read_memory-Answers =
      read_memory-Keeps m Answers (λ a e c h. (h.0, r.set_mta_serves a e c.world h.1))
        (λ n c h. (h.0, r.upload_serves n c.world h.1))

  -- A connected client reads any span of the 32-bit address space from a slave of byte granularity
  -- that answers every command that fits its MAX_CTO of two or more.
  pub read_memory-ok :
      (a n e : ℕ) (c : Client m)
      → Answers c
      → 2 ≤ cto
      → a + n ≤ 0x100000000
      → a < 0x100000000
      → e ≤ 0xFF
      → (bs : List ℕ) × ((read_memory m (pos a) (pos n) (pos e) c).0 ≡ ok bs)
  unfolding read_memory upload_all connected
  read_memory-ok a zero e c (on, s) room span low ext = ([], ground arith)
  read_memory-ok a (suc n) e c (on, s) room span low ext =
      let c' : Client m = record c { world = (m.set_mta a e c.world).1 } in
      let k = min 0xFF (cto - 1) in
      let (bs, read) =
        upload_loop-ok (suc n) (suc n) k [] c' (omega arith) (omega arith) (omega arith)
          (r.set_mta_serves a e c.world s) in
      let frame = s.frame in let bytes = s.bytes in (bs, ground (arith, r.set_mta_ok a e c.world s))
