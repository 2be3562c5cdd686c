-- ===== src/Procmon/Disks.antt =====
-- /proc/diskstats as the kernel prints it: a line for each device.
use gra_project.Base.{
  ℕ, zero, suc, ◌^◌, ◌≡◌, ◌<◌, refl, ap, ◌∙◌, Option, some, List, [], ◌∷◌, ◌++◌, Bytes, All, length,
  replicate,
}
use gra_project.Procmon.{read_fields}
use gra_project.Streams.Texts.{BeginsBlank, blank, Blanks, NoBlanks, good, digits, read_long-digits}

-- The line of a device: two numbers, each padded, the name, and seventeen fields.
pub record Device : Type 0 where
  pub major_pad : ℕ
  pub major : ℕ
  pub minor_pad : ℕ
  pub minor : ℕ
  pub initial : ℕ  -- the first character of the name
  pub name : Bytes  -- the others
  pub early : List ℕ
  pub tenth : ℕ
  pub late : List ℕ
  pub last : ℕ

abbrev pub IsLong : ℕ → Type 0
IsLong n = n < 2 ^ 63

pub record IsDevice (d : Device) : Type 0 where
  pub major : IsLong d.major
  pub minor : IsLong d.minor
  pub name : NoBlanks (d.initial ∷ d.name)
  pub early : All IsLong d.early
  pub tenth : IsLong d.tenth
  pub late : All IsLong d.late
  pub last : IsLong d.last
  pub nine : length d.early ≡ 9
  pub six : length d.late ≡ 6

-- Fields, a space before each.
abbrev pub fields_text : List ℕ → Bytes → Bytes
fields_text [] rest = rest
fields_text (n ∷ ns) rest = b' ' ∷ digits n (fields_text ns rest)

abbrev pub spaces : ℕ → Bytes
spaces k = replicate k b' '

-- A line with what follows it.
abbrev pub line : Device → Bytes → Bytes
line d rest =
    spaces d.major_pad
    ++ digits d.major (
        (b' ' ∷ spaces d.minor_pad)
        ++ digits d.minor (
            (b' ' ∷ [])
            ++ (d.initial
                ∷ (d.name
                    ++ fields_text (d.early ++ d.tenth ∷ [])
                        (fields_text (d.late ++ d.last ∷ []) rest)))))

pub spaces-Blanks : (k : ℕ) → Blanks (spaces k)
spaces-Blanks zero = tt
spaces-Blanks (suc k) = (refl, spaces-Blanks k)

pub fields_text-BeginsBlank :
    (ns : List ℕ) (rest : Bytes) → BeginsBlank rest → BeginsBlank (fields_text ns rest)
fields_text-BeginsBlank [] rest h = h
fields_text-BeginsBlank (n ∷ ns) rest h = blank b' ' _ refl refl

-- The value that the last of these fields leaves in a variable.
abbrev pub left_by : List ℕ → Option ℕ → Option ℕ
left_by [] t = t
left_by (n ∷ ns) t = left_by ns (some n)

pub left_by-append : (ns : List ℕ) (n : ℕ) (t : Option ℕ) → left_by (ns ++ n ∷ []) t ≡ some n
left_by-append [] n t = refl
left_by-append (m ∷ ns) n t = left_by-append ns n (some m)

pub read_fields-fields_text :
    (ns : List ℕ) (rest name : Bytes) (tmp : Option ℕ) (io_run : ℕ)
    → All IsLong ns
    → BeginsBlank rest
    → read_fields
        (length ns)
        (record { stream = good (fields_text ns rest); name = name; tmp = tmp; io_run = io_run })
      ≡ record { stream = good rest; name = name; tmp = left_by ns tmp; io_run = io_run }
unfolding read_fields
read_fields-fields_text [] rest name tmp io_run h b = refl
read_fields-fields_text (n ∷ ns) rest name tmp io_run h b =
    ap
      (λ r.
        read_fields (length ns) (record { stream = r.0; name = name; tmp = r.1; io_run = io_run }))
      (read_long-digits (b' ' ∷ []) (fields_text ns rest) n tmp (refl, tt) h.0
        (fields_text-BeginsBlank ns rest b))
    ∙ read_fields-fields_text ns rest name (some n) io_run h.1 b
