-- ===== src/Client/Writing.antt =====
-- `write_memory` of `shared/python/simrt_xcp/client.py` against the memory of the slave.
use sim_rt.Prelude.{
  ℕ, zero, suc, ◌+◌, ◌-◌, ◌≤◌, ◌<◌, ◌≡◌, refl, sym, ap, List, [], ◌∷◌, ◌++◌, arith, min, length,
  take, drop, length-take, length-drop, take-append-drop, drop-add, drop-nil_of_le,
}
use sim_rt.Prelude.Int.{ℤ, pos}
use sim_rt.Exec.{ok, Keeps}
use sim_rt.Transport.{PyxcpConfig}
use sim_rt.Transport.Master.{Master}
use sim_rt.Client.{Client, connected, download_loop, download_all, write_memory}
use sim_rt.Client.Keeping.{write_memory-Keeps}
use sim_rt.Client.Reading.{Answers}
use sim_rt.Client.Memory.{
  Bytes, Truthful, Writable, Responsive, Serves, store_at, store_at-append, store_at-nil,
}

module _ (m : Master PyxcpConfig) (d : Truthful m) (wr : Writable m d) where
  -- The memory after a write of a list at the MTA.
  abbrev stored : m.World → List ℕ → Bytes
  stored w bs = store_at (d.mem w) (d.mta_extension w) (d.mta w) bs

  stored-download :
      (frame rest : List ℕ) (w : m.World)
      → (m.download frame w).0 ≡ ok tt
      → stored (m.download frame w).1 rest ≡ stored w (frame ++ rest)
  stored-download frame rest w h =
      let (written, moved, kept) = wr.download_writes frame w h in
      rw (written, moved, kept) (store_at-append _ _ _ frame rest)

  stored-nil :
      (offset : ℕ) (payload : List ℕ) (w : m.World)
      → length payload ≤ offset
      → stored w (drop offset payload) ≡ d.mem w
  stored-nil offset payload w h = rw (drop-nil_of_le offset payload h) (store_at-nil _ _ _)

  -- The loop writes, at the MTA, what is left of the payload.
  download_loop-writes :
      (fuel offset max_chunk : ℕ) (payload : List ℕ) (c : Client m)
      → length payload ≤ offset + fuel
      → 1 ≤ max_chunk
      → (download_loop m fuel offset max_chunk payload c).0 ≡ ok tt
      → d.mem (download_loop m fuel offset max_chunk payload c).1.world
        ≡ stored c.world (drop offset payload)
  unfolding download_loop
  download_loop-writes zero offset max_chunk payload c enough low h =
      sym (stored-nil offset payload c.world (omega arith))
  download_loop-writes (suc fuel) offset max_chunk payload c enough low h =
      let frame = take max_chunk (drop offset payload) in
      let rest = drop (offset + max_chunk) payload in
      let whole : frame ++ rest ≡ drop offset payload =
        rw (drop-add offset max_chunk payload) (take-append-drop max_chunk (drop offset payload)) in
      let c' : Client m = record c { world = (m.download frame c.world).1 } in
      ground (
        arith,
        stored-nil offset payload c.world,
        stored-download frame rest c.world,
        ap (stored c.world) whole,
        download_loop-writes fuel (offset + max_chunk) max_chunk payload c',
      )

  download_all-writes :
      (a : ℕ) (payload : List ℕ) (e : ℕ) (c : Client m)
      → (download_all m a payload e c).0 ≡ ok tt
      → d.mem (download_all m a payload e c).1.world ≡ store_at (d.mem c.world) e a payload
  unfolding download_all
  download_all-writes a payload e c h =
      let c' : Client m = record c { world = (m.set_mta a e c.world).1 } in
      let k = min 0xFF (m.max_cto c.world - 2) in
      ground (
        arith,
        d.mem-set_mta a e c.world,
        d.set_mta_moves a e c.world,
        download_loop-writes (length payload) 0 k payload c',
      )

  -- Where a successful DOWNLOAD writes its bytes at the MTA: a write that returns has written the
  -- payload at the span, and nothing else.
  pub write_memory-writes :
      (a : ℕ) (payload : List ℕ) (e : ℕ) (c : Client m)
      → (write_memory m (pos a) payload (pos e) c).0 ≡ ok tt
      → d.mem (write_memory m (pos a) payload (pos e) c).1.world
        ≡ store_at (d.mem c.world) e a payload
  unfolding write_memory
  write_memory-writes a [] e c h = ground (arith, store_at-nil (d.mem c.world) e a)
  write_memory-writes a (b ∷ bs) e c h = ground (arith, download_all-writes a (b ∷ bs) e c)

-- Progress: a slave that answers every command that fits its MAX_CTO.
module _ (m : Master PyxcpConfig) {cto : ℕ} (r : Responsive m cto) where
  download_loop-ok :
      (fuel offset max_chunk : ℕ) (payload : List ℕ) (c : Client m)
      → 1 ≤ max_chunk
      → max_chunk + 1 < cto
      → max_chunk ≤ 255
      → Serves m c.world cto
      → (download_loop m fuel offset max_chunk payload c).0 ≡ ok tt
  unfolding download_loop
  download_loop-ok zero offset max_chunk payload c low fits byte s = refl
  download_loop-ok (suc fuel) offset max_chunk payload c low fits byte s =
      let frame = take max_chunk (drop offset payload) in
      let c' : Client m = record c { world = (m.download frame c.world).1 } in
      ground (
        arith,
        length-take max_chunk (drop offset payload),
        length-drop offset payload,
        r.download_ok frame c.world s,
        download_loop-ok fuel (offset + max_chunk) max_chunk payload c' low fits byte
            (r.download_serves frame c.world s),
      )

  pub write_memory-Answers :
      (a : ℤ) (payload : List ℕ) (e : ℤ) → Keeps (Answers m r) (write_memory m a payload e)
  unfolding connected
  write_memory-Answers =
      write_memory-Keeps m (Answers m r) (λ a e c h. (h.0, r.set_mta_serves a e c.world h.1))
        (λ bs c h. (h.0, r.download_serves bs c.world h.1))

  -- A connected client writes any span of the 32-bit address space to a slave of byte granularity
  -- that answers every command that fits its MAX_CTO of three or more.
  pub write_memory-ok :
      (a : ℕ) (payload : List ℕ) (e : ℕ) (c : Client m)
      → Answers m r c
      → 3 ≤ cto
      → a + length payload ≤ 0x100000000
      → a < 0x100000000
      → e ≤ 0xFF
      → (write_memory m (pos a) payload (pos e) c).0 ≡ ok tt
  unfolding write_memory download_all connected
  write_memory-ok a [] e c (on, s) room span low ext = ground arith
  write_memory-ok a (b ∷ bs) e c (on, s) room span low ext =
      let c' : Client m = record c { world = (m.set_mta a e c.world).1 } in
      let k = min 0xFF (cto - 2) in
      let frame = s.frame in
      let bytes = s.bytes in
      ground (
        arith,
        r.set_mta_ok a e c.world s,
        download_loop-ok (suc (length bs)) 0 k (b ∷ bs) c' (omega arith) (omega arith) (omega arith)
            (r.set_mta_serves a e c.world s),
      )
