-- ===== src/Disk/Mounts.antt =====
-- disk.go: unescapeMountField against the escapes of the kernel.
use systats.Prelude.Text.{Text}
use systats.Prelude.{ℕ, [], ◌∷◌, ◌==◌, if◌then◌else◌}

-- What the kernel writes for one character of a device or mount point.
abbrev pub escaped : ℕ → Text → Text
escaped c rest =
    if c == 32
    then b'\\' ∷ b'0' ∷ b'4' ∷ b'0' ∷ rest
    else if c == 9
    then b'\\' ∷ b'0' ∷ b'1' ∷ b'1' ∷ rest
    else if c == 10
    then b'\\' ∷ b'0' ∷ b'1' ∷ b'2' ∷ rest
    else if c == b'\\'
    then b'\\' ∷ b'1' ∷ b'3' ∷ b'4' ∷ rest
    else c ∷ rest

abbrev pub escape_mount_field : Text → Text
escape_mount_field [] = []
escape_mount_field (c ∷ s) = escaped c (escape_mount_field s)
