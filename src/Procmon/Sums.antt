-- ===== src/Procmon/Sums.antt =====
-- servers/pm.h: what `IoData::parse` adds up of the lines of devices.
use gra_project.Base.{
  ℕ, suc, ◌+◌, ◌%◌, ◌^◌, ◌≡◌, ◌<◌, refl, sym, ap, ◌∙◌, Option, none, some, List, [], ◌∷◌, ◌++◌,
  append_assoc, Bytes, All, length, length-append, arith, if◌then◌else◌, Bool-cases, inl, inr,
}
use gra_project.Procmon.{
  IoState, Parsed, parsed, read_device, read_fields, add_tenth, add_long, last_char, and_parsed,
  io_turn, io_loop, parse_io,
}
use gra_project.Procmon.Disks.{
  Device, IsDevice, IsLong, fields_text, spaces, line, spaces-Blanks, fields_text-BeginsBlank,
  left_by-append, read_fields-fields_text,
}
use gra_project.Procmon.Devices.{at_end, read_fields-at_end, read_device-at_blanks}
use gra_project.Procmon.Fuel.{parse_io_enough}
use gra_project.Streams.{Stream, is_digit, read_long, read_word}
use gra_project.Streams.Texts.{
  BeginsBlank, blank, Blanks, good, digits, read_long-digits, read_word-name,
}

All-append :
    {A : Type 0} (P : A → Type 0) (xs : List A) (y : A) → All P xs → P y → All P (xs ++ y ∷ [])
All-append P [] y h p = (p, tt)
All-append P (x ∷ xs) y h p = (h.0, All-append P xs y h.1 p)

pub Blanks-append : (xs ys : Bytes) → Blanks xs → Blanks ys → Blanks (xs ++ ys)
Blanks-append [] ys h k = k
Blanks-append (x ∷ xs) ys h k = (h.0, Blanks-append xs ys h.1 k)

-- The last character of a name.
abbrev pub last_of : ℕ → Bytes → ℕ
last_of x [] = x
last_of x (y ∷ ys) = last_of y ys

last_char-last_of : (x : ℕ) (name : Bytes) → last_char (x ∷ name) ≡ some (last_of x name)
last_char-last_of x [] = refl
last_char-last_of x (y ∷ ys) = last_char-last_of y ys

abbrev full_name : Device → Bytes
full_name d = d.initial ∷ d.name

-- `io_run_ += tmp`, for a device whose name does not end with a digit.
abbrev pub add_io : Device → ℕ → ℕ → ℕ
add_io d n io_run = if is_digit (last_of d.initial d.name) then io_run else add_long io_run n

add_tenth-name :
    (d : Device) (n : ℕ) (s : IoState)
    → s.tmp ≡ some n
    → add_tenth (last_char (full_name d)) s ≡ parsed (record s { io_run = add_io d n s.io_run })
unfolding add_tenth
add_tenth-name d n s e = elim (Bool-cases (is_digit (last_of d.initial d.name))) [
  | inl digit ↦ simp (last_char-last_of d.initial d.name, digit)
  | inr other ↦ simp (last_char-last_of d.initial d.name, other, e)
]

abbrev fields_behind : Device → Bytes → Bytes
fields_behind d rest =
    fields_text (d.early ++ d.tenth ∷ []) (fields_text (d.late ++ d.last ∷ []) rest)

read_device-line :
    (gap : Bytes) (d : Device) (rest name : Bytes) (tmp : Option ℕ) (io_run : ℕ)
    → Blanks gap
    → IsDevice d
    → BeginsBlank rest
    → read_device
        (record { stream = good (gap ++ line d rest); name = name; tmp = tmp; io_run = io_run })
      ≡ record {
        stream = good (fields_behind d rest);
        name = full_name d;
        tmp = tmp;
        io_run = io_run;
      }
unfolding read_device
read_device-line gap d rest name tmp io_run g h b =
    ap after_major (
      ap (λ text. read_long (good text) none)
        (sym (append_assoc gap (spaces d.major_pad) (digits d.major behind_major)))
      ∙ read_long-digits (gap ++ spaces d.major_pad) behind_major d.major none
          (Blanks-append gap (spaces d.major_pad) g (spaces-Blanks d.major_pad)) h.major
          (blank b' ' _ refl refl))
    ∙ ap after_minor (
        read_long-digits (b' ' ∷ spaces d.minor_pad) behind_minor d.minor none
          (refl, spaces-Blanks d.minor_pad) h.minor (blank b' ' _ refl refl))
    ∙ ap after_name (
        read_word-name (b' ' ∷ []) d.initial d.name (fields_behind d rest) name (refl, tt) h.name
          (fields_text-BeginsBlank (d.early ++ d.tenth ∷ []) _
            (fields_text-BeginsBlank (d.late ++ d.last ∷ []) rest b)))
  where
    behind_minor : Bytes
    behind_minor = (b' ' ∷ []) ++ (d.initial ∷ (d.name ++ fields_behind d rest))

    behind_major : Bytes
    behind_major = (b' ' ∷ spaces d.minor_pad) ++ digits d.minor behind_minor

    after_name : Stream × Bytes → IoState
    after_name r = record { stream = r.0; name = r.1; tmp = tmp; io_run = io_run }

    after_minor : Stream × Option ℕ → IoState
    after_minor r = after_name (read_word r.0 name)

    after_major : Stream × Option ℕ → IoState
    after_major r = after_minor (read_long r.0 none)

read_fields-last :
    (k : ℕ) (ns : List ℕ) (n : ℕ) (rest name : Bytes) (tmp : Option ℕ) (io_run : ℕ)
    → length ns ≡ k
    → All IsLong ns
    → IsLong n
    → BeginsBlank rest
    → read_fields (suc k) (record {
      stream = good (fields_text (ns ++ n ∷ []) rest);
      name = name;
      tmp = tmp;
      io_run = io_run;
    })
      ≡ record { stream = good rest; name = name; tmp = some n; io_run = io_run }
read_fields-last k ns n rest name tmp io_run e h l b =
    let count : length (ns ++ n ∷ []) ≡ suc k = omega (arith, length-append ns (n ∷ []), e) in
    ap
      (λ j. read_fields j (record {
        stream = good (fields_text (ns ++ n ∷ []) rest);
        name = name;
        tmp = tmp;
        io_run = io_run;
      }))
      (sym count)
    ∙ read_fields-fields_text (ns ++ n ∷ []) rest name tmp io_run (All-append IsLong ns n h l) b
    ∙ ap (λ t. record { stream = good rest; name = name; tmp = t; io_run = io_run })
        (left_by-append ns n tmp)

-- A turn of the loop reads one line.
io_turn-line :
    (gap : Bytes) (d : Device) (rest name : Bytes) (tmp : Option ℕ) (io_run : ℕ)
    → Blanks gap
    → IsDevice d
    → BeginsBlank rest
    → io_turn
        (record { stream = good (gap ++ line d rest); name = name; tmp = tmp; io_run = io_run })
      ≡ parsed (record {
        stream = good rest;
        name = full_name d;
        tmp = some d.last;
        io_run = add_io d d.tenth io_run;
      })
unfolding io_turn
io_turn-line gap d rest name tmp io_run g h b =
    ap (λ u. after_fields (read_fields 10 u)) (read_device-line gap d rest name tmp io_run g h b)
    ∙ ap after_fields (
        read_fields-last 9 d.early d.tenth late (full_name d) tmp io_run h.nine h.early h.tenth
          (fields_text-BeginsBlank (d.late ++ d.last ∷ []) rest b))
    ∙ ap after_tenth (
        add_tenth-name d d.tenth
          (record { stream = good late; name = full_name d; tmp = some d.tenth; io_run = io_run })
          refl)
    ∙ ap parsed (
        read_fields-last 6 d.late d.last rest (full_name d) (some d.tenth) (add_io d d.tenth io_run)
          h.six h.late h.last b)
  where
    late : Bytes
    late = fields_text (d.late ++ d.last ∷ []) rest

    after_tenth : Parsed → Parsed
    after_tenth r = and_parsed r (λ u. parsed (read_fields 7 u))

    after_fields : IoState → Parsed
    after_fields u = after_tenth (add_tenth (last_char u.name) u)

-- The turn after the last line, which finds nothing left but its newline.
io_turn-end :
    (d : Device) (t io_run : ℕ)
    → io_turn
        (record { stream = good (b'\n' ∷ []); name = full_name d; tmp = some t; io_run = io_run })
      ≡ parsed (at_end (full_name d) t (add_io d t io_run))
unfolding io_turn
io_turn-end d t io_run =
    ap (λ u. after_fields (read_fields 10 u))
      (read_device-at_blanks (b'\n' ∷ []) (full_name d) t io_run refl)
    ∙ ap after_fields (read_fields-at_end 10 (full_name d) t io_run)
    ∙ ap after_tenth (add_tenth-name d t (at_end (full_name d) t io_run) refl)
    ∙ ap parsed (read_fields-at_end 7 (full_name d) t (add_io d t io_run))
  where
    after_tenth : Parsed → Parsed
    after_tenth r = and_parsed r (λ u. parsed (read_fields 7 u))

    after_fields : IoState → Parsed
    after_fields u = after_tenth (add_tenth (last_char u.name) u)

-- What a field of a device counts: partitions, whose names end with a digit, do not.
abbrev pub counted : Device → ℕ → ℕ
counted d n = if is_digit (last_of d.initial d.name) then 0 else n

-- The sum of the tenth fields of the devices that count.
abbrev pub sum_of : List Device → ℕ
sum_of [] = 0
sum_of (d ∷ ds) = counted d d.tenth + sum_of ds

abbrev pub last_device : Device → List Device → Device
last_device d [] = d
last_device d (e ∷ es) = last_device e es

-- The text of the devices, a newline behind each line.
abbrev pub text_of : List Device → Bytes
text_of [] = []
text_of (d ∷ ds) = line d (b'\n' ∷ text_of ds)

add_io-counted : (d : Device) (n s : ℕ) → add_io d n (s % 2 ^ 64) ≡ (s + counted d n) % 2 ^ 64
add_io-counted d n s = elim (Bool-cases (is_digit (last_of d.initial d.name))) [
  | inl e ↦ simp e (omega arith)
  | inr e ↦ simp e (omega arith)
]

-- A turn for each line, one for the end, and some more.
abbrev turns : List Device → ℕ → ℕ
turns [] more = suc (suc more)
turns (d ∷ ds) more = suc (turns ds more)

lt-turns : (ds : List Device) (n : ℕ) → n < turns ds n
lt-turns [] n = omega arith
lt-turns (d ∷ ds) n = omega (arith, lt-turns ds n)

abbrev summed : Device → ℕ → IoState
summed d s = at_end (full_name d) d.last (s % 2 ^ 64)

io_loop-lines :
    (gap : Bytes) (d : Device) (ds : List Device) (name : Bytes) (tmp : Option ℕ) (s more : ℕ)
    → Blanks gap
    → All IsDevice (d ∷ ds)
    → let l = last_device d ds in
      io_loop (turns (d ∷ ds) more) (record {
        stream = good (gap ++ text_of (d ∷ ds));
        name = name;
        tmp = tmp;
        io_run = s % 2 ^ 64;
      })
      ≡ parsed (summed l (s + sum_of (d ∷ ds) + counted l l.last))
unfolding io_loop
io_loop-lines gap d [] name tmp s more g h =
    ap (λ r. and_parsed r (io_loop (suc (suc more))))
      (io_turn-line gap d (b'\n' ∷ []) name tmp (s % 2 ^ 64) g h.0 (blank b'\n' [] refl refl))
    ∙ ap (λ r. and_parsed r (io_loop (suc more)))
        (io_turn-end d d.last (add_io d d.tenth (s % 2 ^ 64)))
    ∙ ap (λ n. parsed (at_end (full_name d) d.last n))
        (ap (add_io d d.last) (add_io-counted d d.tenth s)
          ∙ add_io-counted d d.last (s + counted d d.tenth)
          ∙ omega arith)
io_loop-lines gap d (e ∷ es) name tmp s more g h =
    let l = last_device e es in
    ap (λ r. and_parsed r (io_loop (turns (e ∷ es) more)))
      (io_turn-line gap d (b'\n' ∷ text_of (e ∷ es)) name tmp (s % 2 ^ 64) g h.0
          (blank b'\n' _ refl refl)
        ∙ ap
            (λ n. parsed (record {
              stream = good (b'\n' ∷ text_of (e ∷ es));
              name = full_name d;
              tmp = some d.last;
              io_run = n;
            }))
            (add_io-counted d d.tenth s))
    ∙ io_loop-lines (b'\n' ∷ []) e es (full_name d) (some d.last) (s + counted d d.tenth) more
        (refl, tt) h.1
    ∙ ap (λ n. parsed (summed l n)) (omega arith)

-- Of a text of devices as the kernel prints it, with a newline behind every line, `IoData::parse` adds
-- up the tenth fields of the devices whose names do not end with a digit, modulo 2 ^ 64, and the last
-- field of the last device once more, if its name does not end with a digit.
pub parse_io-text_of :
    (d : Device) (ds : List Device)
    → All IsDevice (d ∷ ds)
    → let l = last_device d ds in
      parse_io (text_of (d ∷ ds)) ≡ parsed (summed l (sum_of (d ∷ ds) + counted l l.last))
parse_io-text_of d ds h =
    let text = text_of (d ∷ ds) in
    sym (parse_io_enough text (turns (d ∷ ds) (length text)) (lt-turns (d ∷ ds) (length text)))
    ∙ io_loop-lines [] d ds [] none 0 (length text) tt h
    ∙ ap (λ n. parsed (summed (last_device d ds) n)) (omega arith)
