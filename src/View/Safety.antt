-- ===== src/View/Safety.antt =====
-- An operation of a view reads only memory that the view's lifetime covers.
use libdense.Common.{ℕ, ◌<◌, ◌≡◌, ◌≢◌, Bool, some, arith, inl, inr}
use libdense.Common.Int.{ℤ, pos, pos_part}
use libdense.DenseSim.{ChunkDelta, Library}
use libdense.DenseSim.Lifetimes.{IsReadableView}
use libdense.Python.{ok, fault}
use libdense.World.Lifecycle.{DenseFanoutView}
use libdense.View.State.{
  Runtime, Reader, pure, ◌>>=◌, fanout_require_valid, chunk_at, normalize_index,
}
use libdense.View.Fanout
use libdense.View.Chunk
use libdense.View.Sequences
use libdense.View.Sequences.{chunk_of}
use libdense.View.Index.{
  Result-cases, chunk_at-lt, chunk_at-ne-fault, normalize_index-lt, normalize_index-ne-fault,
}
use libdense.View.Reads.{Read, read, done}

module _ {Memory : Type 0} (s : Runtime Memory) where
  bind-ne-fault :
      {A B : Type 0} (m : Reader Memory A) (k : A → Reader Memory B)
      → m s ≢ fault
      → ((a : A) → m s ≡ ok a → k a s ≢ fault)
      → (m >>= k) s ≢ fault
  bind-ne-fault m k first rest q = elim (Result-cases (m s)) [
    | inl (a, e) ↦ rest a e (rw e at q)
    | inr (inl (x, e)) ↦ cc (rw e at q)
    | inr (inr e) ↦ first e
  ]

  done-ne-fault : {A : Type 0} (m : Reader Memory A) → m s ≢ fault → done m s ≢ fault
  unfolding done
  done-ne-fault m h = bind-ne-fault m (λ a. pure tt) h (λ a e q. cc)

module _ {Memory : Type 0} (lib : Library Memory) (v : DenseFanoutView) (s : Runtime Memory)
    (exists : fanout_require_valid v s ≢ fault)
    (readable : fanout_require_valid v s ≡ ok tt → IsReadableView lib v.view s.native) where
  -- The chunk that the code points at.
  chunk_of-some :
      (i : ℤ) {c : ChunkDelta}
      → chunk_of lib v i s ≡ ok c
      → (k : ℕ) × (k < v.view.chunk_count)
        × (lib.read_chunk v.view.chunks k s.native ≡ some c)
        × IsReadableView lib v.view s.native
  chunk_of-some i h = elim (Result-cases (chunk_at v i s)) [
    | inl (k, e) ↦
        let (valid, lt) = chunk_at-lt v i s e in (k, lt, ground (arith, e, h), readable valid)
    | inr (inl (x, e)) ↦ ground (arith, e, h)
    | inr (inr e) ↦ ground (arith, e, h)
  ]

  chunk_of-ne-fault : (i : ℤ) → chunk_of lib v i s ≢ fault
  chunk_of-ne-fault i q = elim (Result-cases (chunk_at v i s)) [
    | inl (k, e) ↦
        let (valid, lt) = chunk_at-lt v i s e in
        let (c, got) = (readable valid).chunk k lt in ground (arith, e, got)
    | inr (inl (x, e)) ↦ ground (arith, e)
    | inr (inr e) ↦ chunk_at-ne-fault v i s exists e
  ]

  entries_length-ne-fault :
      (i : ℤ) → Sequences.entries_length lib (record { fanout = v; chunk_index = i }) s ≢ fault
  unfolding Sequences.entries_length
  entries_length-ne-fault i =
      bind-ne-fault s (chunk_of lib v i) _ (chunk_of-ne-fault i) λ c e q. ground arith

  subscribers_length-ne-fault :
      (i : ℤ) → Sequences.subscribers_length lib (record { fanout = v; chunk_index = i }) s ≢ fault
  unfolding Sequences.subscribers_length
  subscribers_length-ne-fault i =
      bind-ne-fault s (chunk_of lib v i) _ (chunk_of-ne-fault i) λ c e q. ground arith

  entries_item-ne-fault :
      (i : ℤ) (found : Bool) (j : ℤ)
      → Sequences.entries_item lib (record { fanout = v; chunk_index = i }) found j s ≢ fault
  unfolding Sequences.entries_item
  entries_item-ne-fault i found j =
      bind-ne-fault s (chunk_of lib v i) _ (chunk_of-ne-fault i) λ c e q.
        let (k, lt, got, r) = chunk_of-some i e in
        elim (Result-cases (normalize_index j (pos c.entry_count))) [
          | inl (x, f) ↦
              let (front, inside) = normalize_index-lt j x c.entry_count f in
              let (d, entry) = r.entry k c lt got (pos_part x) inside in ground (arith, f, entry)
          | inr (inl (x, f)) ↦ ground (arith, f)
          | inr (inr f) ↦ normalize_index-ne-fault j c.entry_count f
        ]

  subscribers_item-ne-fault :
      (i j : ℤ)
      → Sequences.subscribers_item lib (record { fanout = v; chunk_index = i }) j s ≢ fault
  unfolding Sequences.subscribers_item
  subscribers_item-ne-fault i j =
      bind-ne-fault s (chunk_of lib v i) _ (chunk_of-ne-fault i) λ c e q.
        let (k, lt, got, r) = chunk_of-some i e in
        elim (Result-cases (normalize_index j (pos c.subscriber_count))) [
          | inl (x, f) ↦
              let (front, inside) = normalize_index-lt j x c.subscriber_count f in
              let (d, subscriber) = r.subscriber k c lt got (pos_part x) inside in
              ground (arith, f, subscriber)
          | inr (inl (x, f)) ↦ ground (arith, f)
          | inr (inr f) ↦ normalize_index-ne-fault j c.subscriber_count f
        ]

  pub read-ne-fault : (r : Read) → read lib v r s ≢ fault
  unfolding read done Fanout.length Fanout.item Fanout.get_tick Fanout.get_chunk_count
      Fanout.get_delta_count Fanout.get_subscriber_count Fanout.get_groups Fanout.repr
      Chunk.get_chunk_x Chunk.get_chunk_y Chunk.get_entry_count Chunk.get_subscriber_count
      Chunk.repr Chunk.get_entries Chunk.get_subscribers Sequences.entries_repr
      Sequences.subscribers_repr
  read-ne-fault (Read.entries_length i) =
      done-ne-fault s (Sequences.entries_length lib (record { fanout = v; chunk_index = i }))
        (entries_length-ne-fault i)
  read-ne-fault (Read.subscribers_length i) =
      done-ne-fault s (Sequences.subscribers_length lib (record { fanout = v; chunk_index = i }))
        (subscribers_length-ne-fault i)
  read-ne-fault (Read.entries_item i found j) =
      done-ne-fault s (Sequences.entries_item lib (record { fanout = v; chunk_index = i }) found j)
        (entries_item-ne-fault i found j)
  read-ne-fault (Read.subscribers_item i j) =
      done-ne-fault s (Sequences.subscribers_item lib (record { fanout = v; chunk_index = i }) j)
        (subscribers_item-ne-fault i j)
  read-ne-fault (Read.entries_repr i) = λ q. ground (arith, entries_length-ne-fault i)
  read-ne-fault (Read.subscribers_repr i) = λ q. ground (arith, subscribers_length-ne-fault i)
  read-ne-fault (Read.item found i) =
      λ q. ground (arith, exists, normalize_index-ne-fault i v.view.chunk_count)
  read-ne-fault (Read.chunk_x i) = λ q. ground (arith, chunk_of-ne-fault i)
  read-ne-fault (Read.chunk_y i) = λ q. ground (arith, chunk_of-ne-fault i)
  read-ne-fault (Read.chunk_entry_count i) = λ q. ground (arith, chunk_of-ne-fault i)
  read-ne-fault (Read.chunk_subscriber_count i) = λ q. ground (arith, chunk_of-ne-fault i)
  read-ne-fault (Read.chunk_repr i) = λ q. ground (arith, chunk_of-ne-fault i)
  read-ne-fault (Read.chunk_entries i found) = λ q. ground (arith, chunk_at-ne-fault v i s exists)
  read-ne-fault (Read.chunk_subscribers i found) =
      λ q. ground (arith, chunk_at-ne-fault v i s exists)
  read-ne-fault _ = λ q. ground (arith, exists)
