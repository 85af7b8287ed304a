-- ===== src/Block/Frames.antt =====
-- The bytes that `takeDataPacket` stores, as a list of frames: a header of 32 bytes and the block.
use robot_server.Common.{
  ℕ, zero, suc, ◌+◌, ◌*◌, ◌/◌, ◌%◌, ◌≤◌, ◌<◌, ◌≡◌, refl, sym, ap, ◌∙◌, not, some, List, [], ◌∷◌,
  ◌++◌, arith, length, length-append, length-take, length-drop, take, drop, drop-drop, take_all,
  flatten, ◌==◌, suc-ne-zero, if◌then◌else◌,
}
use mathlib.Core.List.{append-nil, append_assoc}
use robot_server.Common.Bytes.{Mem}
use robot_server.Common.Outcome.{ok}
use robot_server.Block.{Disk, number_block, full_blocks, block_data, read_dat, take_data_packet}
use robot_server.Block.Cut.{IsFrames}

-- The header with device id `dev`, block number `i` of `total`, and block length `256 * hi + lo`.
unfoldable pub header : Mem → ℕ → ℕ → ℕ → ℕ → List ℕ
header dev total i hi lo =
    b'V'
    ∷ dev 0
    ∷ dev 1
    ∷ dev 2
    ∷ dev 3
    ∷ dev 4
    ∷ dev 5
    ∷ dev 6
    ∷ dev 7
    ∷ 0x15
    ∷ 0x09
    ∷ 0x00
    ∷ 0x02
    ∷ i
    ∷ 0x0
    ∷ 0x0
    ∷ 0x0
    ∷ 0x0
    ∷ 0x0
    ∷ 0x0
    ∷ 0x0
    ∷ 0x0
    ∷ 0x0
    ∷ 0x0
    ∷ 0x0
    ∷ 0x0
    ∷ 0x0
    ∷ 0x0
    ∷ 0x0
    ∷ total
    ∷ hi
    ∷ lo
    ∷ []

-- The frame of a block of `len` bytes.
abbrev pub frame : Mem → ℕ → ℕ → ℕ → List ℕ → List ℕ
frame dev total i len block =
    header dev (total % 256) (i % 256) (len / 256 % 256) (len % 256 % 256) ++ block

-- The frames of `rest`, which holds `k` full blocks and less than one more, from number `i` on.
unfoldable pub frames : Mem → ℕ → ℕ → ℕ → List ℕ → List (List ℕ)
frames dev total zero i [] = []
frames dev total zero i (x ∷ rest) = frame dev total i (suc (length rest)) (x ∷ rest) ∷ []
frames dev total (suc k) i rest =
    frame dev total i 992 (take 992 rest) ∷ frames dev total k (i + 1) (drop 992 rest)

-- Blocks needed for `size` bytes.
abbrev pub block_count : ℕ → ℕ
block_count size = (size + 991) / 992

unfoldable pub frames_of : Mem → List ℕ → List (List ℕ)
frames_of dev buffer = frames dev (block_count (length buffer)) (length buffer / 992) 0 buffer

-- What `takeDataPacket` does behind the loop.
finish : ℕ → ℕ → List ℕ → List ℕ × List ℕ → List ℕ
finish r q buffer (h, bytes) =
    if not (r == 0) then (bytes ++ number_block h q r) ++ take r (drop (q * 992) buffer) else bytes

number_block-header :
    (dev : Mem) (t i len a b c : ℕ)
    → number_block (header dev t a b c) i len
      ≡ header dev t (i % 256) (len / 256 % 256) (len % 256 % 256)
unfolding header number_block
number_block-header dev t i len a b c = refl

module _ (dev : Mem) (total : ℕ) where
  finish_lem :
      (buffer rest : List ℕ) (r i a b c : ℕ) (bytes : List ℕ)
      → drop (i * 992) buffer ≡ rest
      → length rest ≡ r
      → finish r i buffer (header dev (total % 256) a b c, bytes)
        ≡ bytes ++ flatten (frames dev total zero i rest)
  unfolding finish frames
  finish_lem buffer [] r i a b c bytes at len = rw (← len) (sym (append-nil bytes))
  finish_lem buffer (x ∷ rest) r i a b c bytes at len = rw (
    ← len,
    suc-ne-zero (length rest),
    number_block-header dev (total % 256) i (suc (length rest)) a b c,
    at,
    take_all (suc (length rest)) (x ∷ rest) (omega arith),
    append-nil,
    append_assoc,
  )

module _ (dev : Mem) (total : ℕ) (buffer : List ℕ) where
  blocks_lem :
      (k i r a b c : ℕ) (bytes : List ℕ)
      → length buffer ≡ (i + k) * 992 + r
      → finish r (i + k) buffer (full_blocks k i buffer (header dev (total % 256) a b c) bytes)
        ≡ bytes ++ flatten (frames dev total k i (drop (i * 992) buffer))
  unfolding full_blocks frames
  blocks_lem zero i r a b c bytes size =
      let e : i + 0 ≡ i = omega arith in
      rw e (
        finish_lem dev total buffer (drop (i * 992) buffer) r i a b c bytes refl
          (omega (arith, length-drop (i * 992) buffer)))
  blocks_lem (suc k) i r a b c bytes size =
      let e : i + suc k ≡ i + 1 + k = omega arith in
      let e' : i * 992 + 992 ≡ (i + 1) * 992 = omega arith in
      let block = take 992 (drop (i * 992) buffer) in
      let h = header dev (total % 256) (i % 256) 3 224 in
      rw (e, number_block-header dev (total % 256) i 992 a b c, drop-drop 992 (i * 992) buffer, e')
        (blocks_lem k (i + 1) r (i % 256) 3 224 ((bytes ++ h) ++ block) (omega arith)
          ∙ append_assoc (bytes ++ h) block _
          ∙ append_assoc bytes h _
          ∙ ap (λ x. bytes ++ x) (sym (append_assoc h block _)))

IsFrames-add : (f : List ℕ) (fs : List (List ℕ)) → length f ≡ 1024 → IsFrames fs → IsFrames (f ∷ fs)
IsFrames-add f [] l w = omega arith
IsFrames-add f (g ∷ fs) l w = (l, w)

-- Each frame but the last is full, and the last is no longer.
pub frames-IsFrames :
    (dev : Mem) (total k i : ℕ) (rest : List ℕ)
    → k * 992 ≤ length rest
    → length rest < (k + 1) * 992
    → IsFrames (frames dev total k i rest)
unfolding frames header
frames-IsFrames dev total zero i [] lo hi = tt
frames-IsFrames dev total zero i (x ∷ rest) lo hi = omega arith
frames-IsFrames dev total (suc k) i rest lo hi =
    IsFrames-add (frame dev total i 992 (take 992 rest))
      (frames dev total k (i + 1) (drop 992 rest)) (omega (arith, length-take 992 rest))
      (frames-IsFrames dev total k (i + 1) (drop 992 rest) (omega (arith, length-drop 992 rest))
        (omega (arith, length-drop 992 rest)))

block_data-finish :
    (bytes : List ℕ) (dev : Mem)
    → block_data bytes dev
      ≡ finish (length bytes % 992) (length bytes / 992) bytes (
          full_blocks
            (length bytes / 992)
            0
            bytes
            (header dev
              ((if not (length bytes % 992 == 0)
                  then length bytes / 992 + 1
                  else length bytes / 992)
                % 256)
              0
              0
              0)
            [])
unfolding block_data finish header
block_data-finish bytes dev = refl

total_lem :
    (size : ℕ) → (if not (size % 992 == 0) then size / 992 + 1 else size / 992) ≡ block_count size
total_lem size = ground arith

block_data-frames :
    (bytes : List ℕ) (dev : Mem) → block_data bytes dev ≡ flatten (frames_of dev bytes)
unfolding frames_of
block_data-frames bytes dev =
    let q = length bytes / 992 in
    let r = length bytes % 992 in
    let e : 0 + q ≡ q = omega arith in
    let run = blocks_lem dev (block_count (length bytes)) bytes q 0 r 0 0 0 [] (omega arith) in
    rw (block_data-finish bytes dev, total_lem (length bytes)) (rw e at run)

read_dat_lem :
    (disk : Disk) (name : List ℕ) (len : ℕ) (bytes : List ℕ)
    → disk.file name ≡ some bytes
    → read_dat disk name len ≡ ok (take len bytes)
unfolding read_dat
read_dat_lem disk name len bytes e = rw (e, read_dat)

-- `takeDataPacket` stores the frames of the first 32768 bytes of the file, one behind the other: a
-- header for each block of at most 992 bytes, with the device id, the block's number, the number of
-- blocks and the block's length.
pub take_data_packet-frames :
    (disk : Disk) (name : List ℕ) (dev : Mem) (bytes : List ℕ)
    → disk.file name ≡ some bytes
    → take_data_packet disk name dev ≡ ok (flatten (frames_of dev (take 32768 bytes)))
unfolding take_data_packet
take_data_packet-frames disk name dev bytes e =
    rw (read_dat_lem disk name 32768 bytes e, block_data-frames (take 32768 bytes) dev)

pub frames_of-IsFrames : (dev : Mem) (bytes : List ℕ) → IsFrames (frames_of dev bytes)
unfolding frames_of
frames_of-IsFrames dev bytes =
    frames-IsFrames dev (block_count (length bytes)) (length bytes / 992) 0 bytes (omega arith)
      (omega arith)

length-frames :
    (dev : Mem) (total k i : ℕ) (rest : List ℕ)
    → k * 992 ≤ length rest
    → length rest < (k + 1) * 992
    → length (flatten (frames dev total k i rest)) ≡ length rest + 32 * block_count (length rest)
unfolding frames header
length-frames dev total zero i [] lo hi = refl
length-frames dev total zero i (x ∷ rest) lo hi = omega (arith, length-append rest [])
length-frames dev total (suc k) i rest lo hi =
    let tail = frames dev total k (i + 1) (drop 992 rest) in
    let len = length-drop 992 rest in
    omega (
      arith,
      len,
      length-take 992 rest,
      length-append (take 992 rest) (flatten tail),
      length-frames dev total k (i + 1) (drop 992 rest) (omega (arith, len)) (omega (arith, len)),
    )

-- Each block costs a header of 32 bytes.
pub length-frames_of :
    (dev : Mem) (bytes : List ℕ)
    → length (flatten (frames_of dev bytes)) ≡ length bytes + 32 * block_count (length bytes)
unfolding frames_of
length-frames_of dev bytes =
    length-frames dev (block_count (length bytes)) (length bytes / 992) 0 bytes (omega arith)
      (omega arith)
