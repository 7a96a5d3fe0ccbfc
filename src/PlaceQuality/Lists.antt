-- ===== src/PlaceQuality/Lists.antt =====
-- The word lists of crates/talaria-sources/src/place_quality.rs.
use talaria_v.Base.{String, Bool, List, [], ◌∷◌}
use talaria_v.Text.{Text, is_one_of, contains_any}

unfoldable pub is_stop_word : Text → Bool
unfolding is_one_of
is_stop_word word = is_one_of word (
    "the" ∷ "a" ∷ "an" ∷ "his" ∷ "her" ∷ "their" ∷ "its" ∷ "this" ∷ "that" ∷ "these" ∷ "those"
    ∷ "which" ∷ "who" ∷ "whom" ∷ "whose" ∷ "where" ∷ "when" ∷ "what" ∷ "how" ∷ "why" ∷ "and" ∷ "or"
    ∷ "but" ∷ "with" ∷ "from" ∷ "into" ∷ "onto" ∷ "upon" ∷ "over" ∷ "under" ∷ "after" ∷ "before"
    ∷ "during" ∷ "while" ∷ "january" ∷ "february" ∷ "march" ∷ "april" ∷ "may" ∷ "june" ∷ "july"
    ∷ "august" ∷ "september" ∷ "october" ∷ "november" ∷ "december" ∷ "spring" ∷ "summer" ∷ "autumn"
    ∷ "winter" ∷ "morning" ∷ "afternoon" ∷ "evening" ∷ "night" ∷ "year" ∷ "years" ∷ "month"
    ∷ "months" ∷ "day" ∷ "days" ∷ "hiver" ∷ "été" ∷ "ete" ∷ "printemps" ∷ "automne" ∷ "janvier"
    ∷ "février" ∷ "fevrier" ∷ "mars" ∷ "avril" ∷ "mai" ∷ "juin" ∷ "juillet" ∷ "août" ∷ "aout"
    ∷ "septembre" ∷ "octobre" ∷ "novembre" ∷ "décembre" ∷ "decembre" ∷ [])

unfoldable pub is_month : Text → Bool
unfolding is_one_of
is_month word = is_one_of word (
    "january" ∷ "february" ∷ "march" ∷ "april" ∷ "may" ∷ "june" ∷ "july" ∷ "august" ∷ "september"
    ∷ "october" ∷ "november" ∷ "december" ∷ [])

unfoldable pub is_demonym : Text → Bool
unfolding is_one_of
is_demonym word = is_one_of word (
    "anglais" ∷ "english" ∷ "français" ∷ "francais" ∷ "french" ∷ "allemand" ∷ "german" ∷ "prussien"
    ∷ "prussian" ∷ "espagnol" ∷ "spanish" ∷ "italien" ∷ "italian" ∷ "russe" ∷ "russian"
    ∷ "autrichien" ∷ "austrian" ∷ "américain" ∷ "americain" ∷ "american" ∷ [])

unfoldable pub is_abstract_noun : Text → Bool
unfolding is_one_of
is_abstract_noun word = is_one_of word (
    "schisme" ∷ "schism" ∷ "concile" ∷ "council" ∷ "rencontre" ∷ "meeting" ∷ "encounter"
    ∷ "victoire" ∷ "victory" ∷ "guerre" ∷ "war" ∷ "paix" ∷ "peace" ∷ "traité" ∷ "traite" ∷ "treaty"
    ∷ "alliance" ∷ "coalition" ∷ "révolution" ∷ "revolution" ∷ "empire" ∷ [])

unfoldable pub is_organization : Text → Bool
unfolding is_one_of
is_organization word = is_one_of word (
    "nbc" ∷ "cnn" ∷ "bbc" ∷ "fox" ∷ "abc" ∷ "cbs" ∷ "pbs" ∷ "msnbc" ∷ "npr" ∷ "nato" ∷ "un" ∷ "eu"
    ∷ "who" ∷ "wto" ∷ "imf" ∷ "opec" ∷ "oecd" ∷ "asean" ∷ "fbi" ∷ "cia" ∷ "nsa" ∷ "doj" ∷ "dhs"
    ∷ "epa" ∷ "fda" ∷ "sec" ∷ "ftc" ∷ "inc" ∷ "llc" ∷ "corp" ∷ "corporation" ∷ "company"
    ∷ "organization" ∷ "foundation" ∷ "institute" ∷ "association" ∷ "committee" ∷ "commission"
    ∷ "congress" ∷ "parliament" ∷ "senate" ∷ "cabinet" ∷ "administration" ∷ [])

unfoldable pub is_treaty_pattern : Text → Bool
unfolding is_one_of
is_treaty_pattern word = is_one_of word (
    "agreement" ∷ "accord" ∷ "protocol" ∷ "convention" ∷ "pact" ∷ "charter" ∷ "declaration"
    ∷ "resolution" ∷ "mandate" ∷ "communiqué" ∷ "communique" ∷ "deal" ∷ "framework" ∷ [])

unfoldable pub is_given_name : Text → Bool
unfolding is_one_of
is_given_name word = is_one_of word (
    "charles" ∷ "georges" ∷ "george" ∷ "antoine" ∷ "pierre" ∷ "jean" ∷ "paul" ∷ "jacques" ∷ "henri"
    ∷ "louis" ∷ "joseph" ∷ "william" ∷ "john" ∷ "robert" ∷ "james" ∷ "marie" ∷ "jeanne" ∷ "anne"
    ∷ "catherine" ∷ "françois" ∷ "francois" ∷ "napoleon" ∷ "napoléon" ∷ [])

unfoldable pub is_geo_prefix : Text → Bool
unfolding is_one_of
is_geo_prefix word = is_one_of word (
    "saint" ∷ "st" ∷ "st." ∷ "san" ∷ "santa" ∷ "ste" ∷ "sainte" ∷ "mount" ∷ "mt" ∷ "fort" ∷ "cape"
    ∷ "port" ∷ "lake" ∷ "île" ∷ "ile" ∷ "island" ∷ "rio" ∷ "rue" ∷ "quai" ∷ "new" ∷ "los" ∷ "las"
    ∷ "el" ∷ [])

unfoldable pub has_media_pattern : Text → Bool
unfolding contains_any
has_media_pattern lower = contains_any lower (
    " show" ∷ "program" ∷ "programme" ∷ " news" ∷ "tonight" ∷ "today" ∷ "morning" ∷ "evening"
    ∷ "daily" ∷ "weekly" ∷ " live" ∷ "report" ∷ "interview" ∷ "podcast" ∷ [])

abbrev pub title_prefixes : List String
title_prefixes =
    "vicomte" ∷ "vicomtesse" ∷ "duc" ∷ "duchesse" ∷ "comte" ∷ "comtesse" ∷ "marquis" ∷ "baron"
    ∷ "baronne" ∷ "prince" ∷ "princesse" ∷ "roi" ∷ "reine" ∷ "king" ∷ "queen" ∷ "emperor"
    ∷ "empress" ∷ "empereur" ∷ "impératrice" ∷ []
