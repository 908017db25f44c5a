-- ===== src/System/Zone.antt =====
-- system.go: the time zone from the target of /etc/localtime.
use systats.Go.Strings.Split.{Lacks, join, split-join}
use systats.Prelude.Text.{Text, codes, eqb, eqb_iff}
use systats.Prelude.{
  ◌≡◌, ◌≢◌, refl, sym, ap, subst, append_assoc, length, length-append, ◌∙◌, List, [], ◌∷◌, ◌++◌,
  arith, All, All-append, if◌then◌else◌,
}
use systats.Go.Paths.{slash}
use systats.System.{zone_of_last, zone_of_parts, reversed, time_zone_of}

reversed-append : (out xs ys : List Text) → reversed out (xs ++ ys) ≡ reversed (reversed out xs) ys
reversed-append out [] ys = refl
reversed-append out (x ∷ xs) ys = reversed-append (x ∷ out) xs ys

zone_of_parts_last :
    (d : Text) (ds : List Text) (area city : Text)
    → zone_of_parts (d ∷ (ds ++ (area ∷ city ∷ [])))
      ≡ zone_of_last (city ∷ area ∷ reversed (d ∷ []) ds)
unfolding zone_of_last zone_of_parts
zone_of_parts_last d [] area city = refl
zone_of_parts_last d (e ∷ []) area city = refl
zone_of_parts_last d (e ∷ f ∷ ds) area city =
    ap zone_of_last (reversed-append (f ∷ e ∷ d ∷ []) ds (area ∷ city ∷ []))

-- A link whose last two parts are `area` and `city`.
two_parts :
    (d : Text) (ds : List Text) (area city : Text)
    → All (Lacks slash) (d ∷ ds)
    → Lacks slash area
    → Lacks slash city
    → time_zone_of (join (d ∷ (ds ++ (area ∷ city ∷ []))) slash)
      ≡ (if eqb area (codes "zoneinfo") then city else area ++ (slash ∷ city))
unfolding time_zone_of zone_of_last
two_parts d ds area city hd ha hc =
    ap zone_of_parts (
      split-join d (ds ++ (area ∷ city ∷ [])) slash
        (hd.0, All-append (Lacks slash) ds (area ∷ city ∷ []) hd.1 (ha, (hc, tt))))
    ∙ zone_of_parts_last d ds area city

-- A link into the zone database, whose directory is `dir`.
abbrev pub zone_link : List Text → List Text → Text
zone_link dir zone = join (dir ++ (codes "zoneinfo" ∷ zone)) slash

module _ (d : Text) (ds : List Text) (region area city : Text) (hd : All (Lacks slash) (d ∷ ds))
    (hr : Lacks slash region) (ha : Lacks slash area) (hc : Lacks slash city)
    (ne : area ≢ codes "zoneinfo") where
  zoneinfo-Lacks : Lacks slash (codes "zoneinfo")
  zoneinfo-Lacks = omega arith

  one_part : time_zone_of (zone_link (d ∷ ds) (city ∷ [])) ≡ city
  unfolding eqb
  one_part = two_parts d ds (codes "zoneinfo") city hd zoneinfo-Lacks hc

  -- Behind further directories `more`, the last two parts are the zone's.
  area_city :
      (more : List Text)
      → All (Lacks slash) more
      → time_zone_of (join (d ∷ ((ds ++ more) ++ (area ∷ city ∷ []))) slash)
        ≡ area ++ (slash ∷ city)
  area_city more hm =
      two_parts d (ds ++ more) area city (hd.0, All-append (Lacks slash) ds more hd.1 hm) ha hc
      ∙ ground (arith, eqb_iff area (codes "zoneinfo"))

  behind :
      (more : List Text)
      → All (Lacks slash) more
      → time_zone_of (join (d ∷ (ds ++ (more ++ (area ∷ city ∷ [])))) slash)
        ≡ area ++ (slash ∷ city)
  behind more hm =
      subst (λ l. time_zone_of (join (d ∷ l) slash) ≡ area ++ (slash ∷ city))
        (append_assoc ds more (area ∷ city ∷ [])) (area_city more hm)

  longer : area ++ (slash ∷ city) ≢ region ++ (slash ∷ (area ++ (slash ∷ city)))
  longer e =
      absurd (omega (arith, ap length e, length-append region (slash ∷ (area ++ (slash ∷ city)))))

  -- For a link into the directory zoneinfo, whose parts hold no slash, the time zone is the name of a
  -- zone of one or of two parts, the first of which is not called zoneinfo itself. Of a zone of
  -- three parts only the last two are kept, which is not its name.
  pub time_zone_of-zone_link :
      (time_zone_of (zone_link (d ∷ ds) (city ∷ [])) ≡ join (city ∷ []) slash)
      × (time_zone_of (zone_link (d ∷ ds) (area ∷ city ∷ [])) ≡ join (area ∷ city ∷ []) slash)
      × (time_zone_of (zone_link (d ∷ ds) (region ∷ area ∷ city ∷ []))
          ≡ join (area ∷ city ∷ []) slash)
      × (time_zone_of (zone_link (d ∷ ds) (region ∷ area ∷ city ∷ []))
          ≢ join (region ∷ area ∷ city ∷ []) slash)
  time_zone_of-zone_link =
      let three = behind (codes "zoneinfo" ∷ region ∷ []) (zoneinfo-Lacks, (hr, tt)) in
      (
        one_part,
        behind (codes "zoneinfo" ∷ []) (zoneinfo-Lacks, tt),
        three,
        λ e. longer (sym three ∙ e),
      )
