-- ===== src/Receivers/SshDir/Client.antt =====
-- What pkg/receive/receivers/sshdir/sshdir.go uses of other packages, as a parameter.
use btrsync.Common.{ℕ, Bool, Option, List, [], ◌∷◌, ◌++◌}
use btrsync.Common.Bytes.{Bytes}
use btrsync.Common.Outcome.{Outcome}
use btrsync.Common.Paths.{Paths}
use btrsync.Sendstream.Attrs.Values.{Uuid, Time}
use btrsync.Receive.Receiver.{Error}

-- The client of golang.org/x/crypto/ssh, and what is used of `fmt` ("%q", "%d", "%o", `Fscanf`),
-- `base64` and `time`. `says_missing` is whether the text of an error has "No such file or directory".
pub record Ssh : Type 1 where
  pub World : Type 0
  pub paths : Paths
  pub quoted : Bytes → Bytes
  pub decimal : ℕ → Bytes
  pub octal : ℕ → Bytes
  pub base64 : Bytes → Bytes
  pub touch_time : Time → Bytes
  pub uuid_string : Uuid → Bytes
  pub scan_uint : Bytes → Option ℕ
  pub says_missing : Error → Bool
  pub new_session : World → Outcome Error ℕ × World
  pub combined_output : ℕ → Bytes → Bytes → World → Outcome Error Bytes × World
  pub close_session : ℕ → World → World

-- The pieces of a text.
abbrev pub text : List Bytes → Bytes
text [] = []
text (t ∷ ts) = t ++ text ts
