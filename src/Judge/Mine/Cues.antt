-- ===== src/Judge/Mine/Cues.antt =====
-- The cues of crates/talaria-judge/src/dump_mine.rs (lines 85 to 217).
use talaria_v.Base.{String, Bool, List, [], ◌∷◌}
use talaria_v.Text.{Text, contains_any}

-- `has_any(lower, ANECDOTE_CUES)`
unfoldable pub has_anecdote : Text → Bool
unfolding contains_any
has_anecdote lower = contains_any lower (
    "anecdote" ∷ "according to legend" ∷ "legend has it" ∷ "the story goes" ∷ "popular story"
    ∷ "apocryphal" ∷ "once told" ∷ "is said to have" ∷ "it is said that" ∷ "it is said "
    ∷ "reputed to have" ∷ "tradition holds" ∷ "according to a popular" ∷ "famous anecdote"
    ∷ "an apocryphal" ∷ "folklore" ∷ "learned about" ∷ "learnt about" ∷ "learned of" ∷ "learnt of"
    ∷ "from a newspaper" ∷ "newspaper that he read" ∷ "newspaper that she read" ∷ "read in a café"
    ∷ "read in a cafe" ∷ [])

-- `has_any(lower, COMMEMORATIVE)`
unfoldable pub is_commemorative : Text → Bool
unfolding contains_any
is_commemorative lower = contains_any lower (
    "statue" ∷ "museum" ∷ "memorial" ∷ "plaque" ∷ "was unveiled" ∷ "street named" ∷ "named after"
    ∷ "remains" ∷ "reburied" ∷ "commemorat" ∷ [])

unfoldable pub verb_cues : List (String × String)
verb_cues =
    ("was born", "born")
    ∷ ("born in", "born")
    ∷ (" died", "died")
    ∷ ("death of", "died")
    ∷ ("married", "married")
    ∷ ("studied", "studied")
    ∷ ("educated", "studied")
    ∷ ("to study", "studied")
    ∷ ("study in", "studied")
    ∷ ("study at", "studied")
    ∷ ("enrolled", "studied")
    ∷ ("matriculat", "studied")
    ∷ ("fought", "fought")
    ∷ ("battle of", "fought")
    ∷ ("defeated", "fought")
    ∷ ("captured", "fought")
    ∷ ("campaign", "fought")
    ∷ ("retreat", "fought")
    ∷ ("signed", "signed")
    ∷ ("treaty of", "signed")
    ∷ ("crowned", "crowned")
    ∷ ("exiled", "exiled")
    ∷ ("fled", "exiled")
    ∷ ("lived in", "lived")
    ∷ ("resided", "lived")
    ∷ ("settled in", "lived")
    ∷ ("moved to", "moved")
    ∷ ("returned to", "moved")
    ∷ ("arrived in", "moved")
    ∷ ("arrived at", "moved")
    ∷ ("left for", "moved")
    ∷ ("departed", "moved")
    ∷ ("visited", "visited")
    ∷ ("travelled", "visited")
    ∷ ("traveled", "visited")
    ∷ (" met ", "met")
    ∷ ("published", "published")
    ∷ ("wrote ", "published")
    ∷ ("painted", "painted")
    ∷ ("painting", "painted")
    ∷ ("discovered", "discovered")
    ∷ ("isolated", "discovered")
    ∷ ("research at", "discovered")
    ∷ ("awarded", "awarded")
    ∷ ("nobel", "awarded")
    ∷ ("received the", "awarded")
    ∷ ("sailed", "sailed")
    ∷ ("set sail", "sailed")
    ∷ ("embarked", "sailed")
    ∷ ("landed", "sailed")
    ∷ ("voyage", "sailed")
    ∷ ("expedition", "sailed")
    ∷ ("founded", "founded")
    ∷ ("worked at", "worked")
    ∷ ("worked in", "worked")
    ∷ ("worked as", "worked")
    ∷ ("laboratory", "worked")
    ∷ ("taught", "taught")
    ∷ ("teaching at", "taught")
    ∷ ("joined", "joined")
    ∷ ("appointed", "appointed")
    ∷ ("elected", "appointed")
    ∷ ("commissioned", "appointed")
    ∷ ("imprisoned", "imprisoned")
    ∷ ("invented", "invented")
    ∷ ("designed", "invented")
    ∷ ("decoded", "worked")
    ∷ ("buried", "died")
    ∷ ("sacré", "crowned")
    ∷ ("sacre", "crowned")
    ∷ ("couronné", "crowned")
    ∷ ("couronne", "crowned")
    ∷ ("né le", "born")
    ∷ ("née le", "born")
    ∷ ("né à", "born")
    ∷ ("née à", "born")
    ∷ ("mourut", "died")
    ∷ ("mort le", "died")
    ∷ ("morte le", "died")
    ∷ ("traité de", "signed")
    ∷ ("traite de", "signed")
    ∷ ("traité des", "signed")
    ∷ ("signe le", "signed")
    ∷ ("bataille de", "fought")
    ∷ ("siège de", "fought")
    ∷ ("siege de", "fought")
    ∷ ("guerre de", "fought")
    ∷ ("s'installe", "lived")
    ∷ ("installe à", "lived")
    ∷ ("dirige son royaume depuis", "lived")
    ∷ []
