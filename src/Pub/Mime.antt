-- ===== src/Pub/Mime.antt =====
-- `get_mime_type` against the table of its types.
use unix_net.Common.{
  ◌≡◌, refl, ap, ◌∙◌, Bool, true, false, ◌||◌, List, [], ◌∷◌, ◌++◌, Bytes, codes, if◌then◌else◌,
}
use unix_net.CString.{equal, mem}
use unix_net.CString.Equal.{strrchr_absent, strrchr_last}
use unix_net.Pub.{plain, type_of_suffix, type_of_dot, get_mime_type}

-- The types, by what follows the last dot.
abbrev pub mime_table : List (Bytes × Bytes)
mime_table =
    (codes "html", codes "text/html; charset=utf-8")
    ∷ (codes "htm", codes "text/html; charset=utf-8")
    ∷ (codes "jpg", codes "image/jpeg")
    ∷ (codes "jpeg", codes "image/jpeg")
    ∷ (codes "gif", codes "image/gif")
    ∷ (codes "png", codes "image/png")
    ∷ (codes "css", codes "text/css")
    ∷ (codes "au", codes "audio/basic")
    ∷ (codes "wav", codes "audio/wav")
    ∷ (codes "avi", codes "video/x-msvideo")
    ∷ (codes "mov", codes "video/quicktime")
    ∷ (codes "qt", codes "video/quicktime")
    ∷ (codes "mpeg", codes "video/mpeg")
    ∷ (codes "mpe", codes "video/mpeg")
    ∷ (codes "vrml", codes "model/vrml")
    ∷ (codes "wrl", codes "model/vrml")
    ∷ (codes "midi", codes "audio/midi")
    ∷ (codes "mid", codes "audio/midi")
    ∷ (codes "mp3", codes "audio/mpeg")
    ∷ (codes "ogg", codes "application/ogg")
    ∷ (codes "pac", codes "application/x-ns-proxy-autoconfig")
    ∷ []

pub type_in : List (Bytes × Bytes) → Bytes → Bytes
type_in [] ext = plain
type_in ((key, mime) ∷ table) ext = if equal ext key then mime else type_in table ext

if_or :
    (a b : Bool) (x y : Bytes) → (if a || b then x else y) ≡ (if a then x else if b then x else y)
if_or true b x y = refl
if_or false b x y = refl

suffix_in_table : (ext : Bytes) → type_of_suffix (b'.' ∷ ext) ≡ type_in mime_table ext
unfolding type_of_suffix type_in equal
suffix_in_table ext = simp if_or

-- A name with a dot has the type that the table gives to what follows its last dot, whatever
-- stands before it, and plain text where the table has no such entry; a name with no dot is plain
-- text.
pub mime_by_suffix :
    (base ext : Bytes)
    → mem b'.' ext ≡ false
    → (get_mime_type (base ++ (b'.' ∷ ext)) ≡ type_in mime_table ext) × (get_mime_type ext ≡ plain)
unfolding get_mime_type
mime_by_suffix base ext h = (
  ap type_of_dot (strrchr_last b'.' base ext h) ∙ suffix_in_table ext,
  ap type_of_dot (strrchr_absent b'.' ext h),
)
