-- ===== src/Stdio/Types.antt =====
-- The structures of libc/src/stdio.c. A pointer into a buffer is its offset from the start of the
-- allocated range. The mutexes are the subject of `Pthread`.
use tiny_libc.Prelude.{ℕ, ◌-◌, ◌≤◌, ◌<◌, List}
use tiny_libc.Prelude.Bytes.{Memory, slice}

-- `struct file_buffer`: the bytes of the allocated range, its size, and the used range.
pub record Buffer : Type 0 where
  pub bytes : Memory
  pub size : ℕ
  pub start : ℕ
  pub end : ℕ

-- `struct FILE`
pub record File : Type 0 where
  pub fd : ℕ
  pub input : Buffer
  pub output : Buffer

-- The bytes between `used.start` and `used.end`.
abbrev pub used : Buffer → List ℕ
used b = slice b.bytes b.start (b.end - b.start)

abbrev pub empty_buffer : ℕ → Buffer
empty_buffer size = record { bytes = λ _. 0; size = size; start = 0; end = 0 }

-- `MAKE_FILE`
make_file : ℕ → ℕ → ℕ → File
make_file fd in_size out_size = record {
  fd = fd;
  input = empty_buffer in_size;
  output = empty_buffer out_size;
}

unfoldable pub stdin : File
unfolding make_file
stdin = make_file 0 1024 1024

unfoldable pub stdout : File
unfolding make_file
stdout = make_file 1 1024 1024

unfoldable pub stderr : File
unfolding make_file
stderr = make_file 2 1024 1024

-- What holds of a buffer between calls: the used range lies in the allocated one, which is not empty.
pub record IsValid (b : Buffer) : Type 0 where
  pub ordered : b.start ≤ b.end
  pub within : b.end ≤ b.size
  pub nonempty : 0 < b.size
