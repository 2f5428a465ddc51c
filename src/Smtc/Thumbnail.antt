-- ===== src/Smtc/Thumbnail.antt =====
-- internal/smtc/thumbnail.go: `readThumbnail`, the reading of a cover image through a chain of
-- WinRT calls, any of which may fail, and the cache that it keeps.
use smtc_now_playing.Prelude.{
  ℕ, ◌%◌, ◌^◌, ◌<◌, Bool, Option, none, some, [], Text, Slice, Option-cases, ◌==◌, ◌&&◌,
  if◌then◌else◌, ◌≡◌, ◌≢◌, ◌⊎◌, inl, inr, arith,
}
use smtc_now_playing.Prelude.Chain.{◌>>=◌, ◌>>◌, check}
use smtc_now_playing.Prelude.Tests.{ltb}
use smtc_now_playing.Smtc.Async.{AsyncOp, wait_for_async, is_completed}
use smtc_now_playing.Smtc.State.{Smtc, Properties}

-- What the calls of one `readThumbnail` answer, in their order: each call that can only fail or go
-- on is a `Bool`.
pub record Stream : Type 0 where
  pub thumbnail_found : Bool  -- `GetThumbnail`: no error, and not nil
  pub open_started : Bool  -- `OpenReadAsync`
  pub open_op : AsyncOp (Unit {0})
  pub random_access : Bool  -- the query for `IRandomAccessStream`
  pub size : Option ℕ  -- `getSize`, `none` for an error
  pub content_type : Option Text  -- the query for `IContentTypeProvider`, and its answer
  pub buffer : ℕ → Bool  -- `BufferCreate`, at a capacity
  pub buffer_interface : Bool  -- the query for `IBuffer`
  pub input_interface : Bool  -- the query for `IInputStream`
  pub read_started : ℕ → Bool  -- `readAsync`, at a count
  pub read_completed : Bool  -- `pollAsyncProgress`
  pub read_result : Bool  -- `getAsyncWithProgressResult`: no error, and not nil
  pub bytes_read : Option ℕ  -- `GetLength`, `none` for an error
  pub reader : Bool  -- `DataReaderFromBuffer`
  pub read_bytes : ℕ → Option Text  -- `ReadBytes`, `none` for an error

abbrev nonzero : Option ℕ → Option ℕ
nonzero none = none
nonzero (some n) = if n == 0 then none else some n

-- `uint32(size)`.
abbrev pub u32 : ℕ → ℕ
u32 n = n % 2 ^ 32

-- Steps 1 to 3: the size of the stream.
unfoldable pub stream_size : Stream → Option ℕ
stream_size r = do
  check r.thumbnail_found
  check r.open_started
  check (is_completed (wait_for_async r.open_op).1)
  (wait_for_async r.open_op).0
  check r.random_access
  nonzero r.size

-- Steps 6 to 12: the bytes of a stream of that size.
unfoldable pub stream_bytes : Stream → ℕ → Option Text
stream_bytes r n = do
  check (r.buffer (u32 n))
  check r.buffer_interface
  check r.input_interface
  check (r.read_started (u32 n))
  check r.read_completed
  check r.read_result
  count ← nonzero r.bytes_read
  check r.reader
  r.read_bytes count

-- Step 5: an error leaves the content type empty.
abbrev content_type_of : Option Text → Text
content_type_of none = []
content_type_of (some ct) = ct

-- The content type, the bytes (`none` for nil) and the new state.
abbrev pub Read : Type 0
Read = Text × Slice × Smtc

-- The end of the function: the cache takes what was read.
abbrev store : Smtc → ℕ → Text → Option Text → Read
store s n ct none = ([], none, s)
store s n ct (some bytes) = (
  ct,
  some bytes,
  record s {
    current_thumbnail_size = n;
    current_thumbnail_content_type = ct;
    current_thumbnail_data = some bytes;
  },
)

-- Steps 4 to 12.
abbrev read_stream : Smtc → Stream → Option ℕ → Read
read_stream s r none = ([], none, s)
read_stream s r (some n) =
    if n == s.current_thumbnail_size && ltb 0 s.current_thumbnail_size
    then (s.current_thumbnail_content_type, s.current_thumbnail_data, s)
    else store s n (content_type_of r.content_type) (stream_bytes r n)

abbrev read_with : Smtc → Stream → Option Properties → Read
read_with s r none = ([], none, s)
read_with s r (some props) = read_stream s r (stream_size r)

unfoldable pub read_thumbnail : Smtc → Stream → Read
read_thumbnail s r = read_with s r s.current_properties

-- The cache is consistent: with a size that is not 0 there are bytes.
abbrev pub CacheOk : Smtc → Type 0
CacheOk s = 0 < s.current_thumbnail_size → s.current_thumbnail_data ≢ none

-- `readThumbnail` keeps the cache consistent.
pub read_thumbnail-CacheOk : (s : Smtc) (r : Stream) → CacheOk s → CacheOk (read_thumbnail s r).2
unfolding read_thumbnail
read_thumbnail-CacheOk s r h = ground arith

-- Where no bytes are returned, nothing is changed.
pub read_thumbnail-none :
    (s : Smtc) (r : Stream) → (read_thumbnail s r).1 ≡ none → (read_thumbnail s r).2 ≡ s
unfolding read_thumbnail
read_thumbnail-none s r h = ground arith

-- Bytes that are returned are those of the cache, with their content type.
pub read_thumbnail-some :
    (s : Smtc) (r : Stream) {b : Text}
    → (read_thumbnail s r).1 ≡ some b
    → ((read_thumbnail s r).2.current_thumbnail_data ≡ some b)
      × ((read_thumbnail s r).2.current_thumbnail_content_type ≡ (read_thumbnail s r).0)
unfolding read_thumbnail
read_thumbnail-some s r h = ground arith

-- Nothing but the cache is written.
pub read_thumbnail_frame :
    (s : Smtc) (r : Stream)
    → let t = (read_thumbnail s r).2 in
      t ≡ record s {
        current_thumbnail_size = t.current_thumbnail_size;
        current_thumbnail_content_type = t.current_thumbnail_content_type;
        current_thumbnail_data = t.current_thumbnail_data;
      }
unfolding read_thumbnail
read_thumbnail_frame s r = ground arith

stream_size-pos : (r : Stream) {n : ℕ} → stream_size r ≡ some n → 0 < n
unfolding stream_size
stream_size-pos r h = ground arith

-- Reading the same stream again gives nothing, or the bytes that the cache holds.
pub read_thumbnail_again :
    (s t : Smtc) (r : Stream)
    → let u = (read_thumbnail s r).2 in
      t.current_properties ≡ u.current_properties
      → t.current_thumbnail_size ≡ u.current_thumbnail_size
      → t.current_thumbnail_data ≡ u.current_thumbnail_data
      → ((read_thumbnail t r).1 ≡ none) ⊎ ((read_thumbnail t r).1 ≡ t.current_thumbnail_data)
unfolding read_thumbnail
read_thumbnail_again s t r p q d = elim (Option-cases (stream_size r)) [
  | inl missing ↦ ground arith
  | inr (n, found) ↦ ground (arith, stream_size-pos r found)
]

-- The bytes that a stream gives, where every call succeeds.
abbrev pub stream_cover : Stream → Option Text
stream_cover r = stream_size r >>= stream_bytes r

-- Behind an empty cache the bytes are those of the stream.
pub read_thumbnail_fresh :
    (s : Smtc) (r : Stream)
    → s.current_properties ≢ none
    → s.current_thumbnail_size ≡ 0
    → (read_thumbnail s r).1 ≡ stream_cover r
unfolding read_thumbnail
read_thumbnail_fresh s r p z = ground arith
