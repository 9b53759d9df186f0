-- ===== src/OnlineAv/Fragment.antt =====
-- Online_AV/Online_AV.cpp, `struct Video_Fragment`: its fields, and its image in memory, which is
-- what travels in a datagram.
use eng_project.Base.{
  ◌≤◌, ℕ, ◌^◌, ◌<◌, ◌≡◌, refl, ap, ◌∙◌, Bool, true, false, not, List, [], ◌∷◌, ◌++◌, append-nil,
  arith, ◌==◌, if◌then◌else◌, length, take, drop, replicate, take_of_length-le, drop_of_length-le,
}
use eng_project.Base.Bytes.{le_bytes, of_le, of_le-le_bytes}

-- `sizeof(Video_Fragment::Fdata)`
abbrev pub max_fragment_s : ℕ
max_fragment_s = 1400

-- `sizeof(Video_Fragment)` on x86-64: 4 + 4 + 4 + 1, 3 of padding, 8, 1400.
abbrev pub sizeof_fragment : ℕ
sizeof_fragment = 1424

pub record VideoFragment : Type 0 where
  pub frame_seq : ℕ
  pub fragment_i : ℕ
  pub total_fragments : ℕ
  pub last_fragment : Bool
  pub fragment_s : ℕ
  pub fdata : List ℕ

abbrev pub bool_byte : Bool → ℕ
bool_byte b = if b then 1 else 0

-- The bytes that `sendto(sockfd, &fragment, sizeof(fragment), …)` transmits.
unfoldable pub to_image : VideoFragment → List ℕ
to_image f =
    le_bytes 4 f.frame_seq
    ++ (le_bytes 4 f.fragment_i
        ++ (le_bytes 4 f.total_fragments
            ++ (bool_byte f.last_fragment
                ∷ (replicate 3 0 ++ (le_bytes 8 f.fragment_s ++ f.fdata)))))

abbrev flag : List ℕ → Bool
flag [] = false
flag (b ∷ bs) = not (b == 0)

-- The fields that the program reads after `recv` has written these bytes over the struct.
unfoldable pub of_image : List ℕ → VideoFragment
unfolding of_le
of_image image = record {
  frame_seq = of_le (take 4 image);
  fragment_i = of_le (take 4 (drop 4 image));
  total_fragments = of_le (take 4 (drop 8 image));
  last_fragment = flag (drop 12 image);
  fragment_s = of_le (take 8 (drop 16 image));
  fdata = take max_fragment_s (drop 24 image);
}

-- `recv(sockfd, &fragment, sizeof(fragment), 0)` into memory that holds `old`: a datagram that is
-- too long is cut off, and a short one leaves the rest as it was.
unfoldable pub overlay : ℕ → List ℕ → List ℕ → List ℕ
overlay size bytes old = take size bytes ++ drop (length (take size bytes)) old

-- `Video_Fragment fragment = {}; recv(sockfd, &fragment, sizeof(fragment), 0);`
unfoldable pub recv_fragment : List ℕ → VideoFragment
unfolding overlay of_image
recv_fragment bytes = of_image (overlay sizeof_fragment bytes (replicate sizeof_fragment 0))

-- The fields fit their types.
pub record IsWire (f : VideoFragment) : Type 0 where
  pub seq_fits : f.frame_seq < 2 ^ 32
  pub index_fits : f.fragment_i < 2 ^ 32
  pub total_fits : f.total_fragments < 2 ^ 32
  pub size_fits : f.fragment_s < 2 ^ 64
  pub data_full : length f.fdata ≡ max_fragment_s

flag-bool_byte : (b : Bool) (rest : List ℕ) → flag (bool_byte b ∷ rest) ≡ b
flag-bool_byte true rest = refl
flag-bool_byte false rest = refl

pub of_image-to_image : (f : VideoFragment) → IsWire f → of_image (to_image f) ≡ f
unfolding of_image to_image le_bytes
of_image-to_image f w = λ i. record {
  frame_seq = of_le-le_bytes 4 f.frame_seq w.seq_fits i;
  fragment_i = of_le-le_bytes 4 f.fragment_i w.index_fits i;
  total_fragments = of_le-le_bytes 4 f.total_fragments w.total_fits i;
  last_fragment = flag-bool_byte f.last_fragment [] i;
  fragment_s = of_le-le_bytes 8 f.fragment_s w.size_fits i;
  fdata = take_of_length-le max_fragment_s f.fdata (omega (arith, w.data_full)) i;
}

pub length-to_image : (f : VideoFragment) → IsWire f → length (to_image f) ≡ sizeof_fragment
unfolding to_image le_bytes
length-to_image f w = omega (arith, w.data_full)

pub overlay_full :
    (size : ℕ) (bytes old : List ℕ)
    → length bytes ≡ size
    → length old ≡ size
    → overlay size bytes old ≡ bytes
unfolding overlay
overlay_full size bytes old h k =
    rw
      (
        take_of_length-le size bytes (omega arith),
        drop_of_length-le (length bytes) old (omega arith),
      )
      (append-nil bytes)

pub overlay_short :
    (size : ℕ) (bytes old : List ℕ)
    → length bytes ≤ size
    → overlay size bytes old ≡ bytes ++ drop (length bytes) old
unfolding overlay
overlay_short size bytes old le = rw (take_of_length-le size bytes le) refl

pub recv_fragment-to_image : (f : VideoFragment) → IsWire f → recv_fragment (to_image f) ≡ f
unfolding recv_fragment
recv_fragment-to_image f w =
    ap of_image (
      overlay_full sizeof_fragment (to_image f) (replicate sizeof_fragment 0) (length-to_image f w)
        refl)
    ∙ of_image-to_image f w
