-- ===== src/Keys.antt =====
-- kernel/src/interrupts.rs: the buffer between the keyboard's interrupt and the reader of keys, a
-- ring of 16 bytes.
pub mod Queue
pub mod Map
use forward_os_kernel_base.Base.{
  ℕ, ◌+◌, ◌%◌, ◌==◌, if◌then◌else◌, Option, none, some, Bytes, set_byte,
}

-- KEY_BUFFER, KEY_BUF_HEAD and KEY_BUF_TAIL.
pub record KeyBuffer : Type 0 where
  pub keys : Bytes
  pub head : ℕ
  pub tail : ℕ

unfoldable pub get_key_from_buffer : KeyBuffer → Option ℕ × KeyBuffer
get_key_from_buffer k =
    if k.head == k.tail
    then (none, k)
    else (some (k.keys k.tail), record k { tail = (k.tail + 1) % 16 })

-- What `keyboard_handler` does to the buffer with the scan code that it read.
unfoldable pub put_key : KeyBuffer → ℕ → KeyBuffer
put_key k sc =
    let next = (k.head + 1) % 16 in
    if next == k.tail then k else record k { keys = set_byte k.keys k.head sc; head = next }
