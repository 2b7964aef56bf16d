-- ===== src/Packet/Images.antt =====
-- The bytes of a value in a packet, in the order `bo`, and the values that fit their length fields and
-- a Varstr.
use lin_socket_io.Base.{ℕ, ◌^◌, ◌<◌, List, [], ◌∷◌, ◌++◌, if◌then◌else◌, Bytes, length, All}
use lin_socket_io.Buffer.Memory.{le_bytes}
use lin_socket_io.Wire.Order.{ordered_bytes}
use lin_socket_io.Packet.{
  Shape, bool, uint8, uint16, uint32, uint64, varstr, varstr32, pair, container, Value,
}

abbrev pub FitsShape : (s : Shape) → Value s → Type 0
FitsShape bool b = Unit
FitsShape uint8 v = v < 2 ^ 8
FitsShape uint16 v = v < 2 ^ 16
FitsShape uint32 v = v < 2 ^ 32
FitsShape uint64 v = v < 2 ^ 64
FitsShape varstr str = length str < 2 ^ 16
FitsShape varstr32 str = length str < 2 ^ 16
FitsShape (pair s t) v = FitsShape s v.0 × FitsShape t v.1
FitsShape (container s) c = (length c < 2 ^ 32) × All (FitsShape s) c

-- the images of the values of a container, one after the other
abbrev pub joined : {A : Type 0} → (A → Bytes) → List A → Bytes
joined f [] = []
joined f (x ∷ xs) = f x ++ joined f xs

abbrev pub image : (s : Shape) → ℕ → Value s → Bytes
image bool bo b = le_bytes 1 (if b then 1 else 0)
image uint8 bo v = le_bytes 1 v
image uint16 bo v = ordered_bytes 2 v bo
image uint32 bo v = ordered_bytes 4 v bo
image uint64 bo v = ordered_bytes 8 v bo
image varstr bo str = ordered_bytes 2 (length str) bo ++ str
image varstr32 bo str = ordered_bytes 4 (length str) bo ++ str
image (pair s t) bo v = image s bo v.0 ++ image t bo v.1
image (container s) bo c = ordered_bytes 4 (length c) bo ++ joined (image s bo) c
