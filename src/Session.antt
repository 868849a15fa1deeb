-- ===== src/Session.antt =====
-- XcpSession of `shared/python/pyxcp_host/services/xcp_session.py`: batches of calibration writes
-- with the recovery of the exact original bytes. The catalog is the argument `by_name`.
pub mod Spans
pub mod Pending
pub mod Restoring
pub mod Restored
pub mod Written
pub mod Recovery
pub mod Keeping
use sim_rt.Prelude.{
  ℕ, ◌+◌, Bool, true, false, not, ◌&&◌, ◌||◌, Option, none, some, List, [], ◌∷◌, ◌++◌, ltb, ◌==◌,
  if◌then◌else◌, Text, text_eq,
}
use sim_rt.Prelude.Dict.{Dict, lookup, contains, insert, erase, keys}
use sim_rt.Exec.{
  Result, ok, err, Error, Exec, pure, raise, gets, of_result, ◌>>=◌, ◌>>◌, modify, raise_if,
  no_client, no_values, no_names, overlapping, not_restored,
}
use sim_rt.Transport.{PyxcpConfig}
use sim_rt.Transport.Master.{Master}
use sim_rt.Scalar.{A2lScalar, characteristic, size, Number, Value, decode}
use sim_rt.Scalar.Float64.{Floats}
use sim_rt.Scalar.Database.{get_scalar}
use sim_rt.Client.{Client, connected}
use sim_rt.Client.Characteristic.{read_bytes, write_bytes, write_characteristic}

-- XcpSession._span: the extension, the first address and the one after the last
pub record Span : Type 0 where
  pub extension : ℕ
  pub start : ℕ
  pub stop : ℕ

unfoldable pub span_of : A2lScalar → Span
span_of s = record { extension = s.address_extension; start = s.address; stop = s.address + size s }

-- the test of two spans in _validate_non_overlapping
unfoldable pub overlaps : Span → Span → Bool
overlaps p q = p.extension == q.extension && ltb p.start q.stop && ltb q.start p.stop

-- the inner loop: does an entry overlap a span of another name?
unfoldable pub clashes : Text → Span → Dict Span → Bool
unfolding overlaps
clashes name p [] = false
clashes name p ((other, q) ∷ spans) =
    if not (text_eq other name) && overlaps p q then true else clashes name p spans

-- list(dict.fromkeys(names)), from the names that are in already
unfoldable pub fromkeys : List Text → Dict (Unit {0}) → List Text
unfolding insert keys
fromkeys [] seen = keys seen
fromkeys (n ∷ names) seen = fromkeys names (insert n tt seen)

unfoldable pub nonempty : List Text → List Text
nonempty [] = []
nonempty (n ∷ names) = if text_eq n [] then nonempty names else n ∷ nonempty names

-- XcpSession._unique_names
unfoldable pub unique_names : List Text → Result (List Text)
unfolding fromkeys nonempty
unique_names names = elim (fromkeys (nonempty names) []) [
  | [] ↦ err no_names
  | n ∷ ns ↦ ok (n ∷ ns)
]

-- The client, with `self._client is not None` as `attached`, and the bytes to restore.
pub record Session (m : Master PyxcpConfig) : Type 0 where
  pub client : Client m
  pub attached : Bool
  pub originals : Dict (List ℕ)
  pub spans : Dict Span

module _ (m : Master PyxcpConfig) (f : Floats) (by_name : Dict A2lScalar) where
  -- an entry of a batch: name, scalar and value
  pub record Entry : Type 0 where
    pub name : Text
    pub scalar : A2lScalar
    pub value : Value f

  abbrev pub on_client : {A : Type 0} → Exec (Client m) A → Exec (Session m) A
  on_client g s = let (r, c) = g s.client in (r, record s { client = c })

  -- XcpSession._require_client
  unfoldable pub require_client : Exec (Session m) (Unit {0})
  require_client s = (if s.attached && connected m s.client then ok tt else err no_client, s)

  -- the entries of a batch, as the catalog knows them
  unfoldable pub entries_of : List (Text × Value f) → Result (List Entry)
  entries_of [] = ok []
  entries_of ((name, value) ∷ values) =
      let rest = entries_of values in
      elim (get_scalar by_name name characteristic) [
        | err e ↦ err e
        | ok s ↦ elim rest [
          | err e ↦ err e
          | ok entries ↦ ok (record { name = name; scalar = s; value = value } ∷ entries)
        ]
      ]

  -- XcpSession._validate_non_overlapping
  unfoldable pub validate_non_overlapping : Dict Span → List Entry → Result (Unit {0})
  validate_non_overlapping spans [] = ok tt
  validate_non_overlapping spans (entry ∷ entries) =
      let p = span_of entry.scalar in
      let rest = validate_non_overlapping (insert entry.name p spans) entries in
      if clashes entry.name p spans then err overlapping else rest

  -- the body of `if name not in self._original_bytes:`
  unfoldable pub read_original : Text → A2lScalar → Exec (Session m) (Unit {0})
  read_original name scalar = do
    original ← on_client (read_bytes m scalar)
    modify (λ s. record s {
      originals = insert name original s.originals;
      spans = insert name (span_of scalar) s.spans;
    })

  -- the original bytes of an entry are read before its first write
  unfoldable pub keep_original : Text → A2lScalar → Exec (Session m) (Unit {0})
  unfolding read_original
  keep_original name scalar s =
      (if contains name s.originals then pure tt else read_original name scalar) s

  -- one round of the loop of `write_calibrations`
  unfoldable pub write_entry : Entry → Exec (Session m) (Number f)
  unfolding keep_original
  write_entry entry = do
    keep_original entry.name entry.scalar
    on_client (write_characteristic m f entry.scalar entry.value true)

  -- the `try` of one round of the loop of `restore_calibrations`
  unfoldable pub restore_one : Text → A2lScalar → List ℕ → Exec (Session m) (Number f)
  restore_one name scalar original = do
    on_client (write_bytes m scalar original)
    actual ← on_client (read_bytes m scalar)
    raise_if (not (text_eq actual original)) not_restored
    value ← of_result (decode f scalar actual)
    modify (λ s. record s { originals = erase name s.originals; spans = erase name s.spans })
    pure value

  -- the loop; `failed` is `failures` being non-empty
  unfoldable pub restore_loop :
      List Text → Dict (Number f) → Bool → Exec (Session m) (Dict (Number f))
  restore_loop [] restored failed s = (if failed then err not_restored else ok restored, s)
  restore_loop (name ∷ names) restored failed s = elim (lookup name s.originals) [
    | none ↦ restore_loop names restored failed s
    | some original ↦ elim (get_scalar by_name name characteristic) [
      | err e ↦ (err e, s)
      | ok scalar ↦
          let (r, s') = restore_one name scalar original s in
          elim r [
            | ok value ↦ restore_loop names (insert name value restored) failed s'
            | err e ↦ restore_loop names restored true s'
          ]
    ]
  ]

  -- XcpSession.restore_calibrations, of all names or of those that are given
  unfoldable pub restore_all : Exec (Session m) (Dict (Number f))
  unfolding require_client
  restore_all = do
    require_client
    selected ← gets (λ s. keys s.originals)
    restore_loop selected [] false

  unfoldable pub restore_named : List Text → Exec (Session m) (Dict (Number f))
  unfolding require_client
  restore_named names = do
    require_client
    selected ← of_result (unique_names names)
    restore_loop selected [] false

  -- the `except` of `write_calibrations`
  unfoldable pub recover : List Text → Error → Exec (Session m) (Dict (Number f))
  recover names operation_error s =
      let (r, s') = restore_named names s in
      elim r [ ok _ ↦ (err operation_error, s') | err _ ↦ (err not_restored, s') ]

  -- the loop of `write_calibrations`, with its `try` around each round
  unfoldable pub write_loop :
      List Entry → List Text → Dict (Number f) → Exec (Session m) (Dict (Number f))
  unfolding write_entry
  write_loop [] written result s = (ok result, s)
  write_loop (entry ∷ entries) written result s =
      let (r, s') = write_entry entry s in
      elim r [
        | ok value ↦
            write_loop entries (written ++ (entry.name ∷ [])) (insert entry.name value result) s'
        | err e ↦ recover (written ++ (entry.name ∷ [])) e s'
      ]

  -- XcpSession.write_calibrations
  unfoldable pub write_calibrations : List (Text × Value f) → Exec (Session m) (Dict (Number f))
  unfolding require_client write_loop
  write_calibrations [] = raise no_values
  write_calibrations (v ∷ values) = do
    require_client
    entries ← of_result (entries_of (v ∷ values))
    spans ← gets (λ s. s.spans)
    of_result (validate_non_overlapping spans entries)
    write_loop entries [] []
