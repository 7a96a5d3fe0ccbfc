-- ===== src/Judge/Gazetteer.antt =====
-- The gazetteer of crates/talaria-judge/src/place.rs. Coordinates are in ten-thousandths of a degree,
-- since the literals of the source have at most four decimals.
use talaria_v.Base.{String, List, [], ◌∷◌, ℤ, pos, negsuc}

unfoldable pub gazetteer : List (String × ℤ × ℤ)
gazetteer =
    ("london", pos 515074, negsuc 1277)
    ∷ ("paris", pos 488566, pos 23522)
    ∷ ("berlin", pos 525200, pos 134050)
    ∷ ("cambridge", pos 522053, pos 1218)
    ∷ ("oxford", pos 517520, negsuc 12576)
    ∷ ("new york", pos 407128, negsuc 740059)
    ∷ ("washington", pos 389072, negsuc 770368)
    ∷ ("boston", pos 423601, negsuc 710588)
    ∷ ("vienna", pos 482082, pos 163738)
    ∷ ("rome", pos 419028, pos 124964)
    ∷ ("madrid", pos 404168, negsuc 37037)
    ∷ ("moscow", pos 557558, pos 376173)
    ∷ ("beijing", pos 399042, pos 1164074)
    ∷ ("tokyo", pos 356762, pos 1396503)
    ∷ ("sydney", negsuc 338687, pos 1512093)
    ∷ ("bletchley park", pos 519973, negsuc 7405)
    ∷ ("ajaccio", pos 419267, pos 87369)
    ∷ ("brienne", pos 483933, pos 45228)
    ∷ ("brienne-le-chateau", pos 483933, pos 45228)
    ∷ ("toulon", pos 431242, pos 59280)
    ∷ ("austerlitz", pos 491533, pos 168750)
    ∷ ("waterloo", pos 506794, pos 44047)
    ∷ ("elba", pos 427770, pos 101920)
    ∷ ("saint helena", negsuc 159649, negsuc 57119)
    ∷ ("st helena", negsuc 159649, negsuc 57119)
    ∷ ("russia", pos 557558, pos 376173)
    ∷ ("milan", pos 454642, pos 91900)
    ∷ ("cairo", pos 300444, pos 312357)
    ∷ ("egypt", pos 300444, pos 312357)
    ∷ ("marengo", pos 448880, pos 86790)
    ∷ ("jena", pos 509272, pos 115860)
    ∷ ("wagram", pos 482500, pos 165667)
    ∷ ("leipzig", pos 513397, pos 123731)
    ∷ ("corsica", pos 420396, pos 90129)
    ∷ ("fontainebleau", pos 484047, pos 27016)
    ∷ ("malmaison", pos 488706, pos 21681)
    ∷ ("notre-dame", pos 488530, pos 23499)
    ∷ ("notre dame", pos 488530, pos 23499)
    ∷ ("borodino", pos 555260, pos 358210)
    ∷ ("smolensk", pos 547826, pos 320853)
    ∷ ("friedland", pos 544430, pos 210110)
    ∷ ("tilsit", pos 550833, pos 218833)
    ∷ ("amiens", pos 498943, pos 22957)
    ∷ ("lille", pos 506292, pos 30573)
    ∷ ("honfleur", pos 494197, pos 2328)
    ∷ ("colombey", pos 482170, pos 48830)
    ∷ ("colombey-les-deux-eglises", pos 482170, pos 48830)
    ∷ ("colombey-les-deux-églises", pos 482170, pos 48830)
    ∷ ("strasbourg", pos 485734, pos 77521)
    ∷ ("ulm", pos 484011, pos 99876)
    ∷ ("auerstedt", pos 511000, pos 115830)
    ∷ ("jena–auerstedt", pos 509272, pos 115860)
    ∷ ("jena-auerstedt", pos 509272, pos 115860)
    ∷ ("the pyramids", pos 299792, pos 311342)
    ∷ ("pyramids", pos 299792, pos 311342)
    ∷ ("eylau", pos 544000, pos 206330)
    ∷ ("preussisch eylau", pos 544000, pos 206330)
    ∷ ("aspern", pos 482160, pos 164660)
    ∷ ("essling", pos 482100, pos 164800)
    ∷ ("warsaw", pos 522297, pos 210122)
    ∷ ("berlin", pos 525200, pos 134050)
    ∷ ("dresden", pos 510504, pos 137373)
    ∷ ("prague", pos 500755, pos 144378)
    ∷ ("munich", pos 481351, pos 115820)
    ∷ ("erfurt", pos 509848, pos 110299)
    ∷ ("berezina", pos 544800, pos 285000)
    ∷ ("vilna", pos 546872, pos 252797)
    ∷ ("vilnius", pos 546872, pos 252797)
    ∷ ("liggy", pos 505120, pos 42660)
    ∷ ("ligny", pos 505120, pos 42660)
    ∷ ("wavre", pos 507170, pos 46110)
    ∷ ("brussels", pos 508503, pos 43517)
    ∷ ("belgium", pos 508503, pos 43517)
    ∷ ("spain", pos 404168, negsuc 37037)
    ∷ ("portugal", pos 387223, negsuc 91392)
    ∷ ("lisbon", pos 387223, negsuc 91392)
    ∷ ("italy", pos 419028, pos 124964)
    ∷ ("austria", pos 482082, pos 163738)
    ∷ ("prussia", pos 525200, pos 134050)
    ∷ ("germany", pos 525200, pos 134050)
    ∷ ("france", pos 488566, pos 23522)
    ∷ ("england", pos 515074, negsuc 1277)
    ∷ ("britain", pos 515074, negsuc 1277)
    ∷ ("malta", pos 358989, pos 145146)
    ∷ ("alexandria", pos 312001, pos 299187)
    ∷ ("acre", pos 329281, pos 350820)
    ∷ ("jaffa", pos 320504, pos 347522)
    ∷ ("genoa", pos 444056, pos 89463)
    ∷ ("turin", pos 450703, pos 76869)
    ∷ ("venice", pos 454408, pos 123155)
    ∷ ("florence", pos 437696, pos 112558)
    ∷ ("naples", pos 408518, pos 142681)
    ∷ ("arcola", pos 453500, pos 112830)
    ∷ ("lodi", pos 453140, pos 95030)
    ∷ ("rivoli", pos 455660, pos 108330)
    ∷ ("mantua", pos 451564, pos 107914)
    ∷ ("portoferraio", pos 428120, pos 103160)
    ∷ ("longwood", negsuc 159499, negsuc 57199)
    ∷ ("tuileries", pos 488636, pos 23272)
    ∷ ("saint-cloud", pos 488440, pos 22190)
    ∷ ("saint cloud", pos 488440, pos 22190)
    ∷ ("boulogne", pos 507264, pos 16147)
    ∷ ("boulogne-sur-mer", pos 507264, pos 16147)
    ∷ ("lyon", pos 457640, pos 48357)
    ∷ ("grenoble", pos 451885, pos 57245)
    ∷ ("nice", pos 437102, pos 72620)
    ∷ ("antibes", pos 435804, pos 71251)
    ∷ ("auxonne", pos 471930, pos 53880)
    ∷ ("valence", pos 449334, pos 48920)
    ∷ ("avignon", pos 439493, pos 48055)
    ∷ ("campo formio", pos 459500, pos 133000)
    ∷ ("lunéville", pos 485920, pos 64890)
    ∷ ("luneville", pos 485920, pos 64890)
    ∷ ("pressburg", pos 481486, pos 171077)
    ∷ ("schönbrunn", pos 481845, pos 163122)
    ∷ ("schonbrunn", pos 481845, pos 163122)
    ∷ ("ratisbon", pos 490134, pos 121016)
    ∷ ("regensburg", pos 490134, pos 121016)
    ∷ ("lützen", pos 512580, pos 121410)
    ∷ ("lutzen", pos 512580, pos 121410)
    ∷ ("bautzen", pos 511814, pos 144270)
    ∷ ("hanau", pos 501333, pos 89167)
    ∷ ("kulm", pos 507000, pos 138500)
    ∷ ("quatre bras", pos 505710, pos 44530)
    ∷ ("plancenoit", pos 506660, pos 44170)
    ∷ ("charleroi", pos 504108, pos 44446)
    ∷ ("arcis-sur-aube", pos 485360, pos 41400)
    ∷ ("craonne", pos 494400, pos 37200)
    ∷ ("montereau", pos 483870, pos 29570)
    ∷ ("montmirail", pos 488750, pos 35400)
    ∷ ("champaubert", pos 488800, pos 37750)
    ∷ ("vauchamps", pos 488800, pos 36200)
    ∷ ("maloyaroslavets", pos 550140, pos 364780)
    ∷ ("vyazma", pos 552100, pos 342850)
    ∷ ("krasnoi", pos 545560, pos 314300)
    ∷ ("minsk", pos 539000, pos 275667)
    ∷ ("compiegne", pos 494179, pos 28261)
    ∷ ("compiègne", pos 494179, pos 28261)
    ∷ ("18 brumaire", pos 488566, pos 23522)
    ∷ ("erfurt", pos 509848, pos 110299)
    ∷ ("besançon", pos 472378, pos 60241)
    ∷ ("besancon", pos 472378, pos 60241)
    ∷ ("hauteville house", pos 494570, negsuc 25359)
    ∷ ("saint peter port", pos 494557, negsuc 25349)
    ∷ ("guernsey", pos 494657, negsuc 25852)
    ∷ ("jersey", pos 492138, negsuc 21357)
    ∷ ("vianden", pos 499350, pos 62080)
    ∷ ("clos lucé", pos 474103, pos 9922)
    ∷ ("clos luce", pos 474103, pos 9922)
    ∷ ("amboise", pos 474131, pos 9827)
    ∷ ("vinci", pos 437869, pos 109237)
    ∷ ("cesena", pos 441391, pos 122431)
    ∷ ("palos de la frontera", pos 372278, negsuc 68932)
    ∷ ("palos", pos 372278, negsuc 68932)
    ∷ ("san salvador island", pos 240770, negsuc 744779)
    ∷ ("san salvador", pos 240770, negsuc 744779)
    ∷ ("hispaniola", pos 190000, negsuc 706666)
    ∷ ("santo domingo", pos 184861, negsuc 699311)
    ∷ ("cuba", pos 231136, negsuc 823665)
    ∷ ("jamaica", pos 181096, negsuc 772974)
    ∷ ("valladolid", pos 416523, negsuc 47244)
    ∷ ("barcelona", pos 413851, pos 21734)
    ∷ ("canary islands", pos 282916, negsuc 166290)
    ∷ ("madeira", pos 327607, negsuc 169594)
    ∷ ("lisbon", pos 387223, negsuc 91392)
    ∷ ("stockholm", pos 593293, pos 180686)
    ∷ ("sceaux", pos 487780, pos 22950)
    ∷ ("passy", pos 488575, pos 22764)
    ∷ ("sorbonne", pos 488490, pos 23430)
    ∷ ("maida vale", pos 515274, negsuc 1898)
    ∷ ("sherborne", pos 509490, negsuc 25179)
    ∷ ("princeton", pos 403573, negsuc 746671)
    ∷ ("manchester", pos 534808, negsuc 22425)
    ∷ ("wilmslow", pos 533280, negsuc 22319)
    ∷ ("hampton", pos 514150, negsuc 3669)
    ∷ ("bletchley", pos 519973, negsuc 7405)
    ∷ ("tarsus", pos 369165, pos 348951)
    ∷ ("actium", pos 389330, pos 207330)
    ∷ ("pelusium", pos 310420, pos 325480)
    ∷ ("antioch", pos 362020, pos 361600)
    ∷ ("thebes", pos 257206, pos 326105)
    ∷ ("philae", pos 240250, pos 328840)
    ∷ ("cyrene", pos 328250, pos 218580)
    ∷ ("kraków", pos 500647, pos 199450)
    ∷ ("krakow", pos 500647, pos 199450)
    ∷ ("cracow", pos 500647, pos 199450)
    ∷ ("zakopane", pos 492992, pos 199496)
    ∷ ("oslo", pos 599139, pos 107522)
    ∷ ("cádiz", pos 365271, negsuc 62885)
    ∷ ("cadiz", pos 365271, negsuc 62885)
    ∷ ("seville", pos 373891, negsuc 59844)
    ∷ ("sevilla", pos 373891, negsuc 59844)
    ∷ ("la gomera", pos 280916, negsuc 171132)
    ∷ ("gomera", pos 280916, negsuc 171132)
    ∷ ("la navidad", pos 197500, negsuc 719999)
    ∷ ("azores", pos 377412, negsuc 256755)
    ∷ ("anchiano", pos 438020, pos 109360)
    ∷ ("panthéon", pos 488462, pos 23464)
    ∷ ("pantheon", pos 488462, pos 23464)
    ∷ ("institut curie", pos 488440, pos 23450)
    ∷ ("espci", pos 488413, pos 23478)
    ∷ ("collège de france", pos 488493, pos 23456)
    ∷ ("college de france", pos 488493, pos 23456)
    ∷ ("place des vosges", pos 488556, pos 23655)
    ∷ ("école normale", pos 488417, pos 23445)
    ∷ ("ecole normale", pos 488417, pos 23445)
    ∷ ("invalides", pos 488583, pos 23126)
    ∷ ("vatican", pos 419029, pos 124534)
    ∷ ("pisa", pos 437228, pos 104017)
    ∷ ("bologna", pos 444949, pos 113426)
    ∷ ("urbino", pos 437262, pos 126366)
    ∷ ("padua", pos 454064, pos 118768)
    ∷ ("siena", pos 433188, pos 113308)
    ∷ ("ferrara", pos 448378, pos 116196)
    ∷ ("granada", pos 371773, negsuc 35985)
    ∷ ("córdoba", pos 378882, negsuc 47793)
    ∷ ("cordoba", pos 378882, negsuc 47793)
    ∷ ("toledo", pos 398628, negsuc 40272)
    ∷ ("bordeaux", pos 448378, negsuc 5791)
    ∷ ("nantes", pos 472184, negsuc 15535)
    ∷ ("dijon", pos 473220, pos 50415)
    ∷ ("laon", pos 495640, pos 36200)
    ∷ ("reims", pos 492583, pos 40317)
    ∷ ("versailles", pos 488049, pos 21204)
    ∷ ("saint-germain-en-laye", pos 488989, pos 20938)
    ∷ ("saint-germain", pos 488989, pos 20938)
    ∷ ("trafalgar", pos 360430, negsuc 62869)
    ∷ ("aboukir", pos 313160, pos 300610)
    ∷ ("gibraltar", pos 361408, negsuc 53535)
    ∷ ("hut 8", pos 519973, negsuc 7405)
    ∷ ("teddington", pos 514270, negsuc 3319)
    ∷ ("trinidad", pos 106918, negsuc 612224)
    ∷ ("puerto rico", pos 182208, negsuc 665900)
    ∷ ("venezuela", pos 104806, negsuc 669035)
    ∷ ("panama", pos 89824, negsuc 795198)
    ∷ ("cyprus", pos 351856, pos 333823)
    ∷ ("rhodes", pos 364349, pos 282176)
    ∷ ("athens", pos 379838, pos 237275)
    ∷ ("memphis", pos 298496, pos 312535)
    ∷ ("tours", pos 473941, pos 6848)
    ∷ ("saché", pos 472470, pos 5450)
    ∷ ("sache", pos 472470, pos 5450)
    ∷ ("vendôme", pos 477930, pos 10660)
    ∷ ("vendome", pos 477930, pos 10660)
    ∷ ("château de saché", pos 472470, pos 5450)
    ∷ ("chateau de sache", pos 472470, pos 5450)
    ∷ ("geneva", pos 462044, pos 61432)
    ∷ ("berdychiv", pos 499070, pos 285910)
    ∷ ("berdichev", pos 499070, pos 285910)
    ∷ ("villequier", pos 495126, pos 6714)
    ∷ ("sardinia", pos 401200, pos 90100)
    ∷ ("sardegna", pos 401200, pos 90100)
    ∷ []
