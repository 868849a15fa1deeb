-- ===== src/Client/Memory.antt =====
-- The memory of a slave, and what its commands do to it: the documented behaviour of SET_MTA,
-- UPLOAD and DOWNLOAD, as records of hypotheses of which each theorem takes those that it names.
mod Stores
pub use Stores.*
unfoldable pub use Stores.{store, store_at}
use sim_rt.Prelude.{ℕ, ◌+◌, ◌≤◌, ◌<◌, ◌≡◌, ◌≢◌, ◌⊎◌, some, List, length}
use sim_rt.Exec.{ok}
use sim_rt.Transport.{PyxcpConfig}
use sim_rt.Transport.Master.{Master}

-- SET_MTA and UPLOAD tell the truth when they succeed, and change no byte whatever they return.
pub record Truthful (m : Master PyxcpConfig) : Type 0 where
  pub mem : m.World → Bytes
  pub mta : m.World → ℕ
  pub mta_extension : m.World → ℕ
  pub mem-set_mta : (a e : ℕ) (w : m.World) → mem (m.set_mta a e w).1 ≡ mem w
  pub mem-upload : (n : ℕ) (w : m.World) → mem (m.upload n w).1 ≡ mem w
  pub set_mta_moves :
      (a e : ℕ) (w : m.World)
      → (m.set_mta a e w).0 ≡ ok tt
      → (mta (m.set_mta a e w).1 ≡ a) × (mta_extension (m.set_mta a e w).1 ≡ e)
  pub upload_reads :
      (n : ℕ) (w : m.World) (bs : List ℕ)
      → (m.upload n w).0 ≡ ok bs
      → (bs ≡ bytes_at (mem w (mta_extension w)) (mta w) (length bs))
        × (mta (m.upload n w).1 ≡ mta w + length bs)
        × (mta_extension (m.upload n w).1 ≡ mta_extension w)

-- A successful DOWNLOAD writes its bytes at the MTA and moves it on.
pub record Writable (m : Master PyxcpConfig) (d : Truthful m) : Type 0 where
  pub download_writes :
      (bs : List ℕ) (w : m.World)
      → (m.download bs w).0 ≡ ok tt
      → (d.mem (m.download bs w).1 ≡ store_at (d.mem w) (d.mta_extension w) (d.mta w) bs)
        × (d.mta (m.download bs w).1 ≡ d.mta w + length bs)
        × (d.mta_extension (m.download bs w).1 ≡ d.mta_extension w)

-- A DOWNLOAD, also one that fails, changes no byte outside the span that it is for, and one that
-- succeeds moves the MTA on by it. Which bytes it leaves within the span is open.
pub record Contained (m : Master PyxcpConfig) (d : Truthful m) : Type 0 where
  pub download_contained :
      (bs : List ℕ) (w : m.World) (e x : ℕ)
      → (e ≢ d.mta_extension w) ⊎ (x < d.mta w) ⊎ (d.mta w + length bs ≤ x)
      → d.mem (m.download bs w).1 e x ≡ d.mem w e x
  pub download_moves :
      (bs : List ℕ) (w : m.World)
      → (m.download bs w).0 ≡ ok tt
      → (d.mta (m.download bs w).1 ≡ d.mta w + length bs)
        × (d.mta_extension (m.download bs w).1 ≡ d.mta_extension w)

-- What a slave has to keep to serve a session: MAX_CTO and BYTE granularity.
pub record Serves (m : Master PyxcpConfig) (w : m.World) (cto : ℕ) : Type 0 where
  pub frame : m.max_cto w ≡ cto
  pub bytes : m.bytes_per_element w ≡ some 1

-- Every command that fits into MAX_CTO succeeds, and the slave goes on serving.
pub record Responsive (m : Master PyxcpConfig) (cto : ℕ) : Type 0 where
  pub set_mta_ok : (a e : ℕ) (w : m.World) → Serves m w cto → (m.set_mta a e w).0 ≡ ok tt
  pub set_mta_serves : (a e : ℕ) (w : m.World) → Serves m w cto → Serves m (m.set_mta a e w).1 cto
  pub upload_ok :
      (n : ℕ) (w : m.World)
      → Serves m w cto
      → 1 ≤ n
      → n < cto
      → n ≤ 255
      → (bs : List ℕ) × ((m.upload n w).0 ≡ ok bs) × (length bs ≡ n)
  pub upload_serves : (n : ℕ) (w : m.World) → Serves m w cto → Serves m (m.upload n w).1 cto
  pub download_ok :
      (bs : List ℕ) (w : m.World)
      → Serves m w cto
      → 1 ≤ length bs
      → length bs + 1 < cto
      → length bs ≤ 255
      → (m.download bs w).0 ≡ ok tt
  pub download_serves :
      (bs : List ℕ) (w : m.World) → Serves m w cto → Serves m (m.download bs w).1 cto
